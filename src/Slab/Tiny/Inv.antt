-- ===== src/Slab/Tiny/Inv.antt =====
-- The invariant of a tiny page, and what a scan of its bitmap finds.
use v8malloc.Prelude.{
  ℕ, zero, suc, ◌+◌, ◌-◌, ◌*◌, ◌/◌, ◌^◌, ◌≤◌, ◌<◌, ◌≡◌, ◌≢◌, refl, ap, ◌∙◌, inl, inr, true, false,
  none, some, List, [], ◌∷◌, arith, ◌==◌, Bool-cases, ==→eq, ne→==, get_or, length, length-set,
  subst,
}
use v8malloc.Words.{test_bit, popcount, invert, ctz}
use v8malloc.Words.Bits.{test_bit-invert}
use v8malloc.Words.Scan.{ctz-lt, test_bit-ctz}
use v8malloc.Slab.Tiny.{TinyMeta, mark_slot, clear_slot, find_word, full_word}
use v8malloc.Slab.Tiny.Bitmap.{marked, total, AllWords, marked-clear, total-clear}

-- The slots beyond the capacity are marked for ever; the others are marked while they are in use.
pub record IsTiny (page : ℕ) (m : TinyMeta) : Type 0 where
  pub room : page + 65536 ≤ 2 ^ 64
  pub words : length m.bitmap ≡ 128
  pub bits : AllWords m.bitmap
  pub hint : m.search_hint < 128
  pub sized : 0 < m.object_size
  pub fits : m.capacity * m.object_size ≤ 63488
  pub bounded : m.capacity ≤ 8192
  pub beyond : (r : ℕ) → m.capacity ≤ r → r < 8192 → marked m.bitmap r ≡ true
  pub counted : m.used_count + (8192 - m.capacity) ≡ total m.bitmap

popcount-le : (k n : ℕ) → popcount k n ≤ k
unfolding popcount
popcount-le zero n = omega arith
popcount-le (suc k) n = ground (arith, popcount-le k (n / 2))

pub total-le : (ws : List ℕ) → total ws ≤ 64 * length ws
unfolding total
total-le [] = omega arith
total-le (w ∷ ws) = omega (arith, popcount-le 64 w, total-le ws)

pub length-mark : (ws : List ℕ) (s : ℕ) → length (mark_slot ws s) ≡ length ws
unfolding mark_slot
length-mark ws s = length-set ws _ _

-- A word that is not full has a clear bit, which `ctz` of its complement finds.
module _ (w : ℕ) (lt : w < 2 ^ 64) (gap : w ≢ full_word) where
  inverse_pos : 0 < invert 64 w
  inverse_pos = let d : w < 2 ^ 64 - 1 = ground arith in omega arith

  pub clear_index-lt : ctz 64 (invert 64 w) < 64
  clear_index-lt = ctz-lt 64 (invert 64 w) inverse_pos (omega arith)

  pub clear_index-clear : test_bit w (ctz 64 (invert 64 w)) ≡ false
  clear_index-clear =
      let i = ctz 64 (invert 64 w) in
      let one = test_bit-ctz 64 (invert 64 w) inverse_pos (omega arith) in
      let flip = test_bit-invert 64 w i lt clear_index-lt in ground arith

-- What the scan returns.
pub find_word-some :
    (k : ℕ) (ws : List ℕ) (w i : ℕ)
    → find_word k ws w ≡ some i
    → (w ≤ i) × (i < w + k) × (get_or ws i 0 ≢ full_word)
unfolding find_word
find_word-some zero ws w i h = ground arith
find_word-some (suc k) ws w i h = elim (Bool-cases (get_or ws w 0 == full_word)) [
  | inl t ↦
      (let (a, b, c) = find_word-some k ws (suc w) i (ground arith) in
        (omega arith, omega arith, c))
  | inr f ↦ (let e : w ≡ i = ground arith in (omega arith, omega arith, λ q. ground arith))
]

pub find_word-none :
    (k : ℕ) (ws : List ℕ) (w : ℕ)
    → find_word k ws w ≡ none
    → (i : ℕ) → w ≤ i
    → i < w + k
    → get_or ws i 0 ≡ full_word
unfolding find_word
find_word-none zero ws w h i a b = absurd (omega arith)
find_word-none (suc k) ws w h i a b = elim (Bool-cases (get_or ws w 0 == full_word)) [
  | inl t ↦ elim (Bool-cases (w == i)) [
    | inl e ↦ subst (λ x. get_or ws x 0 ≡ full_word) (==→eq w i e) (==→eq _ _ t)
    | inr d ↦ find_word-none k ws (suc w) (ground arith) i (ground arith) (omega arith)
  ]
  | inr f ↦ ground arith
]

popcount_full : popcount 64 full_word ≡ 64
unfolding popcount
popcount_full = refl

-- A bitmap of full words marks every slot.
pub total-full :
    (ws : List ℕ)
    → ((i : ℕ) → i < length ws → get_or ws i 0 ≡ full_word)
    → total ws ≡ 64 * length ws
unfolding total
total-full [] h = omega arith
total-full (w ∷ ws) h =
    let e : popcount 64 w ≡ 64 = ap (popcount 64) (h 0 (omega arith)) ∙ popcount_full in
    omega (arith, total-full ws (λ i k. h (suc i) (omega arith)))

pub length-clear : (ws : List ℕ) (s : ℕ) → length (clear_slot ws s) ≡ length ws
unfolding clear_slot
length-clear ws s = length-set ws _ _

-- A run of marked slots is counted in full.
pub total-run :
    (k : ℕ) (ws : List ℕ) (s : ℕ)
    → s + k ≤ 64 * length ws
    → ((r : ℕ) → s ≤ r → r < s + k → marked ws r ≡ true)
    → k ≤ total ws
total-run zero ws s h all = omega arith
total-run (suc k) ws s h all =
    let word : s / 64 < length ws = omega arith in
    let len = length-clear ws s in
    let rest = total-run k (clear_slot ws s) (suc s) (omega arith) (λ r a b.
      let d : (r == s) ≡ false = ne→== r s (λ q. omega arith) in
      let old = all r (omega arith) (omega arith) in ground (arith, marked-clear ws s word r)) in
    omega (arith, rest, total-clear ws s word (all s (omega arith) (omega arith)))
