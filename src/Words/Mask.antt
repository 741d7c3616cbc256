-- ===== src/Words/Mask.antt =====
-- Masks: `x & (2^j - 1)` keeps the low bits, `x & ~(2^j - 1)` rounds down.
use v8malloc.Prelude.{
  ℕ, zero, suc, ◌+◌, ◌-◌, ◌*◌, ◌/◌, ◌%◌, ◌^◌, ◌≤◌, ◌<◌, ◌≡◌, refl, ap, ◌∙◌, true, ◌&&◌, arith, ltb,
}
use native.Mathlib.Nat.{pow-suc, mod-eq-sub-div-mul, div-mul-le_self, div-div-eq-div-mul}
use v8malloc.Words.{test_bit, set_bit, invert, bits_and}
use v8malloc.Words.Bits.{test_bit-zero}

pub pow_pos : (k : ℕ) → 0 < 2 ^ k
pow_pos zero = omega arith
pow_pos (suc k) = omega (arith, pow-suc 2 k, pow_pos k)

pub pow_mono : (j k : ℕ) → j ≤ k → 2 ^ j ≤ 2 ^ k
pow_mono zero k h = pow_pos k
pow_mono (suc j) zero h = absurd (omega arith)
pow_mono (suc j) (suc k) h = omega (arith, pow-suc 2 j, pow-suc 2 k, pow_mono j k (omega arith))

-- Remainders by 2^(j + 1), one digit at a time.
mod-pow-suc : (a j : ℕ) → a % 2 ^ suc j ≡ a % 2 + 2 * (a / 2 % 2 ^ j)
mod-pow-suc a j =
    let two : 2 ^ suc j ≡ 2 * 2 ^ j = omega (arith, pow-suc 2 j) in
    let q : a / 2 / 2 ^ j ≡ a / (2 * 2 ^ j) = div-div-eq-div-mul a 2 (2 ^ j) in
    rw two (
      omega (
        arith,
        mod-eq-sub-div-mul a (2 * 2 ^ j),
        mod-eq-sub-div-mul (a / 2) (2 ^ j),
        div-mul-le_self (a / 2) (2 ^ j),
        ap (λ (t : ℕ). t * 2 ^ j) q,
      ))

-- `x & (2^k - 1)` on a word of `k` bits is the word.
bits_and-ones : (k a : ℕ) → a < 2 ^ k → bits_and k a (2 ^ k - 1) ≡ a
unfolding bits_and
bits_and-ones zero a h = omega arith
bits_and-ones (suc k) a h =
    let two = pow-suc 2 k in
    let pos = pow_pos k in
    let half : (2 ^ suc k - 1) / 2 ≡ 2 ^ k - 1 = omega arith in
    rw half (omega (arith, bits_and-ones k (a / 2) (omega arith)))

bits_and-zero : (k a : ℕ) → bits_and k a 0 ≡ 0
unfolding bits_and
bits_and-zero zero a = refl
bits_and-zero (suc k) a = omega (arith, bits_and-zero k (a / 2))

pub bits_and-mask : (k j a : ℕ) → j ≤ k → bits_and k a (2 ^ j - 1) ≡ a % 2 ^ j
unfolding bits_and
bits_and-mask k zero a h =
    let none_left : 2 ^ 0 - 1 ≡ 0 = omega arith in
    ap (bits_and k a) none_left ∙ bits_and-zero k a ∙ omega arith
bits_and-mask zero (suc j) a h = absurd (omega arith)
bits_and-mask (suc k) (suc j) a h =
    let two = pow-suc 2 j in
    let pos = pow_pos j in
    let half : (2 ^ suc j - 1) / 2 ≡ 2 ^ j - 1 = omega arith in
    rw half (omega (arith, mod-pow-suc a j, bits_and-mask k j (a / 2) (omega arith)))

pub bits_and-invert :
    (k j a : ℕ) → j ≤ k → a < 2 ^ k → bits_and k a (invert k (2 ^ j - 1)) ≡ a - a % 2 ^ j
unfolding bits_and
bits_and-invert k zero a h p =
    let one : invert k (2 ^ 0 - 1) ≡ 2 ^ k - 1 = omega arith in
    ap (bits_and k a) one ∙ bits_and-ones k a p ∙ omega arith
bits_and-invert zero (suc j) a h p = absurd (omega arith)
bits_and-invert (suc k) (suc j) a h p =
    let two = pow-suc 2 k in
    let two' = pow-suc 2 j in
    let pos = pow_pos k in
    let pos' = pow_pos j in
    let le : 2 ^ j ≤ 2 ^ k = pow_mono j k (omega arith) in
    let half : invert (suc k) (2 ^ suc j - 1) / 2 ≡ invert k (2 ^ j - 1) = omega arith in
    rw half
      (omega (arith, mod-pow-suc a j, bits_and-invert k j (a / 2) (omega arith) (omega arith)))

pub test_bit-bits_and :
    (k a b i : ℕ) → i < k → test_bit (bits_and k a b) i ≡ (test_bit a i && test_bit b i)
unfolding bits_and test_bit
test_bit-bits_and zero a b i h = absurd (omega arith)
test_bit-bits_and (suc k) a b zero h = ground arith
test_bit-bits_and (suc k) a b (suc i) h =
    let half : bits_and (suc k) a b / 2 ≡ bits_and k (a / 2) (b / 2) = omega arith in
    rw half (test_bit-bits_and k (a / 2) (b / 2) i (omega arith))

pub bits_and-le : (k a b : ℕ) → bits_and k a b ≤ b
unfolding bits_and
bits_and-le zero a b = omega arith
bits_and-le (suc k) a b = omega (arith, bits_and-le k (a / 2) (b / 2))

-- A mask divides into the bits that a word has and those that it lacks.
pub bits_and-add-invert :
    (k a m : ℕ) → a < 2 ^ k → m < 2 ^ k → bits_and k a m + bits_and k (invert k a) m ≡ m
unfolding bits_and
bits_and-add-invert zero a m h p = omega arith
bits_and-add-invert (suc k) a m h p =
    let two = pow-suc 2 k in
    let half : invert (suc k) a / 2 ≡ invert k (a / 2) = omega arith in
    rw half (omega (arith, bits_and-add-invert k (a / 2) (m / 2) (omega arith) (omega arith)))

pub bits_and-set_bit :
    (k a m i : ℕ)
    → i < k
    → test_bit m i ≡ true
    → bits_and k (set_bit a i) m ≡ set_bit (bits_and k a m) i
unfolding bits_and set_bit test_bit
bits_and-set_bit zero a m i h p = absurd (omega arith)
bits_and-set_bit (suc k) a m zero h p =
    let half : (a - a % 2 + 1) / 2 ≡ a / 2 = omega arith in rw half (ground arith)
bits_and-set_bit (suc k) a m (suc i) h p =
    let half : (a % 2 + 2 * set_bit (a / 2) i) / 2 ≡ set_bit (a / 2) i = omega arith in
    let half' : bits_and (suc k) a m / 2 ≡ bits_and k (a / 2) (m / 2) = omega arith in
    rw (half, half') (omega (arith, bits_and-set_bit k (a / 2) (m / 2) i (omega arith) p))

-- The mask of the `c` low bits.
pub test_bit-ones : (c i : ℕ) → test_bit (2 ^ c - 1) i ≡ ltb i c
unfolding test_bit
test_bit-ones zero zero = refl
test_bit-ones zero (suc i) = ground (arith, test_bit-zero i)
test_bit-ones (suc c) zero = let two = pow-suc 2 c in let pos = pow_pos c in ground arith
test_bit-ones (suc c) (suc i) =
    let two = pow-suc 2 c in
    let pos = pow_pos c in
    let half : (2 ^ suc c - 1) / 2 ≡ 2 ^ c - 1 = omega arith in
    rw half (test_bit-ones c i ∙ ground arith)
