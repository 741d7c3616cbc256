-- ===== src/Words/Scan.antt =====
-- Laws of the scans for the lowest and the highest set bit.
use v8malloc.Prelude.{
  ℕ, zero, suc, ◌/◌, ◌%◌, ◌^◌, ◌≤◌, ◌<◌, ◌≡◌, true, false, arith, inl, inr, ◌==◌, Bool-cases,
}
use native.Mathlib.Nat.{pow-suc}
use v8malloc.Words.{test_bit, ctz, msb}

-- A word that is not 0 has a set bit below its width, and `ctz` finds it.
pub ctz-lt : (k n : ℕ) → 0 < n → n < 2 ^ k → ctz k n < k
unfolding ctz
ctz-lt zero n h p = absurd (omega arith)
ctz-lt (suc k) n h p = elim (Bool-cases (n % 2 == 1)) [
  | inl odd ↦ rw (odd, ctz) (omega arith)
  | inr even ↦
      let two = pow-suc 2 k in
      rw (even, ctz) (omega (arith, ctz-lt k (n / 2) (ground arith) (omega arith)))
]

pub test_bit-ctz : (k n : ℕ) → 0 < n → n < 2 ^ k → test_bit n (ctz k n) ≡ true
unfolding ctz test_bit
test_bit-ctz zero n h p = absurd (omega arith)
test_bit-ctz (suc k) n h p = elim (Bool-cases (n % 2 == 1)) [
  | inl odd ↦ rw (odd, ctz) odd
  | inr even ↦
      let two = pow-suc 2 k in rw (even, ctz) (test_bit-ctz k (n / 2) (ground arith) (omega arith))
]

-- No lower bit is set.
pub test_bit_below-ctz : (k n i : ℕ) → i < ctz k n → test_bit n i ≡ false
unfolding ctz test_bit
test_bit_below-ctz zero n i h = absurd (omega arith)
test_bit_below-ctz (suc k) n zero h = ground arith
test_bit_below-ctz (suc k) n (suc i) h = elim (Bool-cases (n % 2 == 1)) [
  | inl odd ↦ absurd (omega (arith, (rw (odd, ctz) at h)))
  | inr even ↦ test_bit_below-ctz k (n / 2) i (omega (arith, (rw (even, ctz) at h)))
]

-- `msb` is the logarithm: the word lies between that power of two and the next.
pub msb_bounds : (k n : ℕ) → 0 < n → n < 2 ^ k → (2 ^ msb k n ≤ n) × (n < 2 ^ suc (msb k n))
unfolding msb
msb_bounds zero n h p = absurd (omega arith)
msb_bounds (suc k) n h p = elim (Bool-cases (n / 2 == 0)) [
  | inl small ↦ rw (small, msb) (ground arith)
  | inr large ↦
      let two = pow-suc 2 k in
      let ih = msb_bounds k (n / 2) (ground arith) (omega arith) in
      let a = pow-suc 2 (msb k (n / 2)) in
      let b = pow-suc 2 (suc (msb k (n / 2))) in rw (large, msb) (omega arith, omega arith)
]
