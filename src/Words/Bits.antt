-- ===== src/Words/Bits.antt =====
-- Laws of single bits: what a write to one bit does to it and to the others.
use v8malloc.Prelude.{
  ℕ, zero, suc, ◌+◌, ◌-◌, ◌*◌, ◌/◌, ◌%◌, ◌^◌, ◌≤◌, ◌<◌, ◌≡◌, ◌≢◌, refl, ap, ◌∙◌, true, false, not,
  arith,
}
use native.Mathlib.Nat.{pow-suc}
use v8malloc.Words.{test_bit, set_bit, clear_bit, invert, popcount}

pub test_bit-set_bit_self : (n i : ℕ) → test_bit (set_bit n i) i ≡ true
unfolding test_bit set_bit
test_bit-set_bit_self n zero = ground arith
test_bit-set_bit_self n (suc i) =
    ap (λ m. test_bit m i) (omega arith) ∙ test_bit-set_bit_self (n / 2) i

pub test_bit-set_bit_ne : (n i j : ℕ) → i ≢ j → test_bit (set_bit n i) j ≡ test_bit n j
unfolding test_bit set_bit
test_bit-set_bit_ne n zero zero h = absurd (h refl)
test_bit-set_bit_ne n zero (suc j) h = ap (λ m. test_bit m j) (omega arith)
test_bit-set_bit_ne n (suc i) zero h = ground arith
test_bit-set_bit_ne n (suc i) (suc j) h =
    ap (λ m. test_bit m j) (omega arith) ∙ test_bit-set_bit_ne (n / 2) i j (omega arith)

pub test_bit-clear_bit_self : (n i : ℕ) → test_bit (clear_bit n i) i ≡ false
unfolding test_bit clear_bit
test_bit-clear_bit_self n zero = ground arith
test_bit-clear_bit_self n (suc i) =
    ap (λ m. test_bit m i) (omega arith) ∙ test_bit-clear_bit_self (n / 2) i

pub test_bit-clear_bit_ne : (n i j : ℕ) → i ≢ j → test_bit (clear_bit n i) j ≡ test_bit n j
unfolding test_bit clear_bit
test_bit-clear_bit_ne n zero zero h = absurd (h refl)
test_bit-clear_bit_ne n zero (suc j) h = ap (λ m. test_bit m j) (omega arith)
test_bit-clear_bit_ne n (suc i) zero h = ground arith
test_bit-clear_bit_ne n (suc i) (suc j) h =
    ap (λ m. test_bit m j) (omega arith) ∙ test_bit-clear_bit_ne (n / 2) i j (omega arith)

pub test_bit-zero : (i : ℕ) → test_bit 0 i ≡ false
unfolding test_bit
test_bit-zero zero = refl
test_bit-zero (suc i) = test_bit-zero i

pub set_bit-lt : (k n i : ℕ) → n < 2 ^ k → i < k → set_bit n i < 2 ^ k
unfolding set_bit
set_bit-lt zero n i h p = absurd (omega arith)
set_bit-lt (suc k) n zero h p = omega (arith, pow-suc 2 k)
set_bit-lt (suc k) n (suc i) h p =
    omega (arith, pow-suc 2 k, set_bit-lt k (n / 2) i (omega (arith, pow-suc 2 k)) (omega arith))

pub clear_bit-le : (n i : ℕ) → clear_bit n i ≤ n
unfolding clear_bit
clear_bit-le n zero = omega arith
clear_bit-le n (suc i) = omega (arith, clear_bit-le (n / 2) i)

-- Of two writes to one bit the last counts.
pub clear_bit-set_bit : (n i : ℕ) → test_bit n i ≡ false → clear_bit (set_bit n i) i ≡ n
unfolding test_bit set_bit clear_bit
clear_bit-set_bit n zero h = ground arith
clear_bit-set_bit n (suc i) h =
    let half : (n % 2 + 2 * set_bit (n / 2) i) / 2 ≡ set_bit (n / 2) i = omega arith in
    rw half (omega (arith, clear_bit-set_bit (n / 2) i h))

pub test_bit-invert : (k n i : ℕ) → n < 2 ^ k → i < k → test_bit (invert k n) i ≡ not (test_bit n i)
unfolding test_bit
test_bit-invert zero n i h p = absurd (omega arith)
test_bit-invert (suc k) n zero h p = let two = pow-suc 2 k in ground arith
test_bit-invert (suc k) n (suc i) h p =
    let two = pow-suc 2 k in
    let half : (2 ^ suc k - 1 - n) / 2 ≡ 2 ^ k - 1 - n / 2 = omega arith in
    rw half (test_bit-invert k (n / 2) i (omega arith) (omega arith))

pub popcount-set_bit :
    (k n i : ℕ) → i < k → test_bit n i ≡ false → popcount k (set_bit n i) ≡ suc (popcount k n)
unfolding test_bit set_bit popcount
popcount-set_bit zero n i p h = absurd (omega arith)
popcount-set_bit (suc k) n zero p h =
    let half : (n - n % 2 + 1) / 2 ≡ n / 2 = omega arith in rw half (ground arith)
popcount-set_bit (suc k) n (suc i) p h =
    let half : (n % 2 + 2 * set_bit (n / 2) i) / 2 ≡ set_bit (n / 2) i = omega arith in
    rw half (omega (arith, popcount-set_bit k (n / 2) i (omega arith) h))

pub popcount-clear_bit :
    (k n i : ℕ) → i < k → test_bit n i ≡ true → suc (popcount k (clear_bit n i)) ≡ popcount k n
unfolding test_bit clear_bit popcount
popcount-clear_bit zero n i p h = absurd (omega arith)
popcount-clear_bit (suc k) n zero p h =
    let half : (n - n % 2) / 2 ≡ n / 2 = omega arith in rw half (ground arith)
popcount-clear_bit (suc k) n (suc i) p h =
    let half : (n % 2 + 2 * clear_bit (n / 2) i) / 2 ≡ clear_bit (n / 2) i = omega arith in
    rw half (omega (arith, popcount-clear_bit k (n / 2) i (omega arith) h))
