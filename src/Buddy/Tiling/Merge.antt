-- ===== src/Buddy/Tiling/Merge.antt =====
-- Merging two held halves into their block keeps a tiling.
use v8malloc.Prelude.{
  ℕ, suc, ◌+◌, ◌/◌, ◌<◌, ◌≡◌, inl, inr, Bool, true, false, not, ◌&&◌, arith, ◌==◌, if◌then◌else◌,
}
use v8malloc.Buddy.{flip, levels}
use v8malloc.Buddy.Geometry.{shr, pages, sibling_page, sibling_page_lem, half_cases}
use v8malloc.Buddy.Tiling.{IsTiling, at, halves, held-le_one}
use v8malloc.Buddy.Tiling.Sums.{sum, sum-exchange, sum-at}

module _ (held held' : ℕ → ℕ → ℕ) (split split' : ℕ → ℕ → Bool) (t : IsTiling held split) (l p : ℕ)
    (h : l < 6) (k : p < pages) (own : 0 < held l (shr p l)) (sib : 0 < held l (flip (shr p l)))
    (new_held : (m j : ℕ)
      → m < levels
      → held' m j + halves l (shr p (suc l)) m j ≡ held m j + at (suc l) (shr p (suc l)) m j)
    (new_split : (m j : ℕ)
      → split' m j ≡ (split m j && not (m == suc l && j == shr p (suc l)))) where
  once : (r : ℕ) → r < pages → sum levels (λ m. held' m (shr r m)) ≡ 1
  unfolding shr
  once r hr =
      let i = shr p (suc l) in
      omega (
        arith,
        t.once r hr,
        sum-exchange levels (λ m. held' m (shr r m)) (λ m. held m (shr r m))
            (λ m. halves l i m (shr r m)) (λ m. at (suc l) i m (shr r m))
            (λ m hm. new_held m (shr r m) hm),
        sum-at levels (suc l) (λ m. if shr r m == i then 1 else 0) (omega arith),
        sum-at levels l (λ m. if shr r m / 2 == i then 1 else 0) (omega arith),
      )

  parent :
      (m r : ℕ) → m < 6 → r < pages → 0 < held' m (shr r m) → split' (suc m) (shr r (suc m)) ≡ true
  unfolding shr
  parent m r hm hr o = ground (
    arith,
    new_held m (shr r m),
    new_split (suc m) (shr r (suc m)),
    t.parent m r,
    t.parent l p,
    t.nested (suc l) p,
    held-le_one t r m hr (omega arith),
  )

  -- Neither half is split.
  unsplit_half : (j : ℕ) → j / 2 ≡ shr p (suc l) → split l j ≡ false
  unfolding shr
  unsplit_half j e =
      let q = sibling_page_lem l p h k in
      elim (half_cases (shr p l) j e) [
        | inl same ↦ rw same (t.leaf l p (omega arith) k own)
        | inr other ↦ rw (other, ← q.1) (t.leaf l (sibling_page l p) (omega arith) q.0 (rw q.1 sib))
      ]

  nested :
      (m r : ℕ)
      → m < 6
      → r < pages
      → split' m (shr r m) ≡ true
      → split' (suc m) (shr r (suc m)) ≡ true
  unfolding shr
  nested m r hm hr o = ground (
    arith,
    new_split m (shr r m),
    new_split (suc m) (shr r (suc m)),
    t.nested m r,
    unsplit_half (shr r m),
  )

  leaf : (m r : ℕ) → m < levels → r < pages → 0 < held' m (shr r m) → split' m (shr r m) ≡ false
  unfolding shr
  leaf m r hm hr o = ground (arith, new_held m (shr r m), new_split m (shr r m), t.leaf m r)

  pub merge-IsTiling : IsTiling held' split'
  merge-IsTiling = record { once = once; parent = parent; nested = nested; leaf = leaf }
