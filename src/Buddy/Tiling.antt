-- ===== src/Buddy/Tiling.antt =====
-- The abstract view of an arena: how often each block is held, and which blocks are split. In a tiling
-- every page lies in exactly one held block, and exactly the blocks above a held block are split.
pub mod Sums
pub mod Split
pub mod Merge
use v8malloc.Prelude.{subst, ltb→lt}
use mathlib.Core.Bool.{false≢true}
use v8malloc.Prelude.{
  ℕ, zero, suc, ◌+◌, ◌-◌, ◌*◌, ◌/◌, ◌%◌, ◌≤◌, ◌<◌, ◌≡◌, ◌≢◌, refl, sym, ap, ◌∙◌, ◌⊎◌, inl, inr,
  Bool, true, false, not, ◌&&◌, ◌||◌, arith, ltb, leb, ◌==◌, if◌then◌else◌, Bool-cases, ==→eq,
  eq→==,
}
use native.Mathlib.Decide.{dec_lt}
use v8malloc.Buddy.{flip, levels}
use v8malloc.Buddy.Geometry.{
  shr, pages, sibling_page, sibling_page_lem, flip-half, flip-ne, half_cases,
}
use v8malloc.Buddy.Tiling.Sums.{sum, sum-exchange, sum-at, le-sum, two-le-sum, sum-pos}

abbrev pub at : ℕ → ℕ → ℕ → ℕ → ℕ
at k i l j = if l == k then (if j == i then 1 else 0) else 0

-- 1 at the two halves of the block `i`, at the level `k` below it.
abbrev pub halves : ℕ → ℕ → ℕ → ℕ → ℕ
halves k i l j = if l == k then (if j / 2 == i then 1 else 0) else 0

pub record IsTiling (held : ℕ → ℕ → ℕ) (split : ℕ → ℕ → Bool) : Type 0 where
  pub once : (p : ℕ) → p < pages → sum levels (λ l. held l (shr p l)) ≡ 1
  pub parent :
      (l p : ℕ) → l < 6 → p < pages → 0 < held l (shr p l) → split (suc l) (shr p (suc l)) ≡ true
  pub nested :
      (l p : ℕ)
      → l < 6
      → p < pages
      → split l (shr p l) ≡ true
      → split (suc l) (shr p (suc l)) ≡ true
  pub leaf : (l p : ℕ) → l < levels → p < pages → 0 < held l (shr p l) → split l (shr p l) ≡ false

pub shr_above : (n l q p : ℕ) → shr q l ≡ shr p l → shr q (l + n) ≡ shr p (l + n)
unfolding shr
shr_above zero l q p h = let e : l ≡ l + 0 = omega arith in subst (λ m. shr q m ≡ shr p m) e h
shr_above (suc n) l q p h =
    let e : suc (l + n) ≡ l + suc n = omega arith in
    subst (λ m. shr q m ≡ shr p m) e (ap (λ x. x / 2) (shr_above n l q p h))

module _ {held : ℕ → ℕ → ℕ} {split : ℕ → ℕ → Bool} (t : IsTiling held split) where
  -- Two held blocks that share a page are one.
  pub same_level :
      (p l k : ℕ)
      → p < pages
      → l < levels
      → k < levels
      → 0 < held l (shr p l)
      → 0 < held k (shr p k)
      → l ≡ k
  same_level p l k h hl hk a b = elim (Bool-cases (l == k)) [
    | inl e ↦ ==→eq l k e
    | inr ne ↦ absurd (
        omega
          (arith, t.once p h, two-le-sum levels (λ l. held l (shr p l)) l k hl hk (ground arith)))
  ]

  pub held-le_one : (p l : ℕ) → p < pages → l < levels → held l (shr p l) ≤ 1
  held-le_one p l h hl = omega (arith, t.once p h, le-sum levels (λ l. held l (shr p l)) l hl)

  -- The ancestors of a split block are split.
  pub split_up :
      (n l p : ℕ)
      → l + n < levels
      → p < pages
      → split l (shr p l) ≡ true
      → split (l + n) (shr p (l + n)) ≡ true
  split_up zero l p h k s = subst (λ m. split m (shr p m) ≡ true) (omega arith) s
  split_up (suc n) l p h k s =
      subst (λ m. split m (shr p m) ≡ true) (omega arith)
        (t.nested (l + n) p (omega arith) k (split_up n l p (omega arith) k s))

  -- If the sibling of a held block is not split, it is held.
  pub sibling_held :
      (l p : ℕ)
      → l < 6
      → p < pages
      → 0 < held l (shr p l)
      → split l (flip (shr p l)) ≡ false
      → 0 < held l (flip (shr p l))
  sibling_held l p h k own unsplit =
      let q = sibling_page l p in
      let at_q = sibling_page_lem l p h k in
      let found = sum-pos levels (λ m. held m (shr q m)) (omega (arith, t.once q at_q.0)) in
      let m = found.0 in
      elim (Bool-cases (ltb m l)) [
        | inl below ↦
            let up =
              split_up (l - suc m) (suc m) q (omega (arith, ltb→lt m l below)) at_q.0
                (t.parent m q (omega (arith, ltb→lt m l below)) at_q.0 found.2) in
            let level : suc m + (l - suc m) ≡ l = omega (arith, ltb→lt m l below) in
            let here = subst (λ x. split x (shr q x) ≡ true) level up in
            absurd (false≢true (sym unsplit ∙ sym (ap (split l) at_q.1) ∙ here))
        | inr not_below ↦ elim (Bool-cases (m == l)) [
          | inl same ↦
              let e = ==→eq m l same in
              let here = subst (λ x. 0 < held x (shr q x)) e found.2 in
              subst (λ j. 0 < held l j) at_q.1 here
          | inr other ↦
              let above : m ≡ suc l + (m - suc l) = ground arith in
              let shared : shr q m ≡ shr p m =
                ap (shr q) above
                ∙ shr_above (m - suc l) (suc l) q p at_q.2
                ∙ ap (shr p) (sym above) in
              let twice = subst (λ j. 0 < held m j) shared found.2 in
              absurd
                (omega (arith, same_level p l m k (omega arith) found.1 own twice, ne_of other))
        ]
      ]
    where
      ne_of : {a b : ℕ} → (a == b) ≡ false → a ≢ b
      ne_of h e = ground arith
