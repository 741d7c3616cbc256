-- ===== src/Slab/Tiny/Bitmap.antt =====
-- A bitmap of words as a set of slots: membership, writes, and the number of slots marked.
use v8malloc.Prelude.{
  ℕ, zero, suc, ◌+◌, ◌/◌, ◌%◌, ◌^◌, ◌<◌, ◌≡◌, ◌≢◌, sym, ap, inl, inr, Bool, true, false, not, ◌||◌,
  ◌&&◌, List, [], ◌∷◌, arith, ◌==◌, Bool-cases, ==→eq, ne→==, get_or, set, length, get_or-set_self,
  get_or-set_ne,
}
use v8malloc.Words.{test_bit, set_bit, clear_bit, popcount}
use v8malloc.Words.Bits.{
  test_bit-set_bit_self, test_bit-set_bit_ne, test_bit-clear_bit_self, test_bit-clear_bit_ne,
  set_bit-lt, clear_bit-le, popcount-set_bit, popcount-clear_bit,
}
use v8malloc.Slab.Tiny.{mark_slot, clear_slot}

-- Whether a slot is marked.
abbrev pub marked : List ℕ → ℕ → Bool
marked bitmap slot = test_bit (get_or bitmap (slot / 64) 0) (slot % 64)

-- The number of marked slots.
unfoldable pub total : List ℕ → ℕ
total [] = 0
total (w ∷ ws) = popcount 64 w + total ws

-- Each word has 64 bits.
abbrev pub AllWords : List ℕ → Type 0
AllWords [] = Unit {0}
AllWords (w ∷ ws) = (w < 2 ^ 64) × AllWords ws

pub get_or-lt : (ws : List ℕ) (i : ℕ) → AllWords ws → get_or ws i 0 < 2 ^ 64
get_or-lt [] i h = omega arith
get_or-lt (w ∷ ws) zero h = h.0
get_or-lt (w ∷ ws) (suc i) h = get_or-lt ws i h.1

pub AllWords-set : (ws : List ℕ) (i v : ℕ) → AllWords ws → v < 2 ^ 64 → AllWords (set ws i v)
AllWords-set [] i v h k = tt
AllWords-set (w ∷ ws) zero v h k = (k, h.1)
AllWords-set (w ∷ ws) (suc i) v h k = (h.0, AllWords-set ws i v h.1 k)

total-set :
    (ws : List ℕ) (i v : ℕ)
    → i < length ws
    → total (set ws i v) + popcount 64 (get_or ws i 0) ≡ total ws + popcount 64 v
unfolding total
total-set [] i v h = absurd (omega arith)
total-set (w ∷ ws) zero v h = omega arith
total-set (w ∷ ws) (suc i) v h = omega (arith, total-set ws i v (omega arith))

-- Two slots of one word with one bit are one slot.
slot_eq : (s r : ℕ) → s / 64 ≡ r / 64 → s % 64 ≡ r % 64 → s ≡ r
slot_eq s r h k = omega arith

module _ (ws : List ℕ) (s : ℕ) (h : s / 64 < length ws) where
  pub marked-mark : (r : ℕ) → marked (mark_slot ws s) r ≡ (marked ws r || r == s)
  unfolding mark_slot
  marked-mark r =
      let v = set_bit (get_or ws (s / 64) 0) (s % 64) in
      elim (Bool-cases (s / 64 == r / 64)) [
        | inl e ↦ elim (Bool-cases (s % 64 == r % 64)) [
          | inl f ↦ ground (
            arith,
            slot_eq s r (==→eq _ _ e) (==→eq _ _ f),
            get_or-set_self ws (s / 64) v 0 h,
            test_bit-set_bit_self (get_or ws (s / 64) 0) (s % 64),
          )
          | inr f ↦
              (let d : s % 64 ≢ r % 64 = ground arith in
                let n : (r == s) ≡ false = ne→== r s (λ q. d (ap (λ x. x % 64) (sym q))) in
                let eq : s / 64 ≡ r / 64 = ==→eq _ _ e in
                let step = get_or-set_self ws (s / 64) v 0 h in
                let bit = test_bit-set_bit_ne (get_or ws (s / 64) 0) (s % 64) (r % 64) d in
                ground (arith, step, bit, n, eq))
        ]
        | inr e ↦
            (let d : s / 64 ≢ r / 64 = ground arith in
              let n : (r == s) ≡ false = ne→== r s (λ q. d (ap (λ x. x / 64) (sym q))) in
              ground (arith, n, get_or-set_ne ws (s / 64) (r / 64) v 0 d))
      ]

  pub marked-clear : (r : ℕ) → marked (clear_slot ws s) r ≡ (marked ws r && not (r == s))
  unfolding clear_slot
  marked-clear r =
      let v = clear_bit (get_or ws (s / 64) 0) (s % 64) in
      elim (Bool-cases (s / 64 == r / 64)) [
        | inl e ↦ elim (Bool-cases (s % 64 == r % 64)) [
          | inl f ↦ ground (
            arith,
            slot_eq s r (==→eq _ _ e) (==→eq _ _ f),
            get_or-set_self ws (s / 64) v 0 h,
            test_bit-clear_bit_self (get_or ws (s / 64) 0) (s % 64),
          )
          | inr f ↦
              (let d : s % 64 ≢ r % 64 = ground arith in
                let n : (r == s) ≡ false = ne→== r s (λ q. d (ap (λ x. x % 64) (sym q))) in
                let eq : s / 64 ≡ r / 64 = ==→eq _ _ e in
                let step = get_or-set_self ws (s / 64) v 0 h in
                let bit = test_bit-clear_bit_ne (get_or ws (s / 64) 0) (s % 64) (r % 64) d in
                ground (arith, step, bit, n, eq))
        ]
        | inr e ↦
            (let d : s / 64 ≢ r / 64 = ground arith in
              let n : (r == s) ≡ false = ne→== r s (λ q. d (ap (λ x. x / 64) (sym q))) in
              ground (arith, n, get_or-set_ne ws (s / 64) (r / 64) v 0 d))
      ]

  pub total-mark : marked ws s ≡ false → total (mark_slot ws s) ≡ suc (total ws)
  unfolding mark_slot
  total-mark m = omega (
    arith,
    total-set ws (s / 64) (set_bit (get_or ws (s / 64) 0) (s % 64)) h,
    popcount-set_bit 64 (get_or ws (s / 64) 0) (s % 64) (omega arith) m,
  )

  pub total-clear : marked ws s ≡ true → suc (total (clear_slot ws s)) ≡ total ws
  unfolding clear_slot
  total-clear m = omega (
    arith,
    total-set ws (s / 64) (clear_bit (get_or ws (s / 64) 0) (s % 64)) h,
    popcount-clear_bit 64 (get_or ws (s / 64) 0) (s % 64) (omega arith) m,
  )

  pub AllWords-mark : AllWords ws → AllWords (mark_slot ws s)
  unfolding mark_slot
  AllWords-mark a =
      AllWords-set ws (s / 64) _ a (set_bit-lt 64 _ _ (get_or-lt ws (s / 64) a) (omega arith))

  pub AllWords-clear : AllWords ws → AllWords (clear_slot ws s)
  unfolding clear_slot
  AllWords-clear a =
      AllWords-set ws (s / 64) _ a
        (omega (arith, clear_bit-le (get_or ws (s / 64) 0) (s % 64), get_or-lt ws (s / 64) a))
