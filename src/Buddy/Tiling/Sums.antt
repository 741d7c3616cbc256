-- ===== src/Buddy/Tiling/Sums.antt =====
-- Sums over levels.
use v8malloc.Prelude.{
  ℕ, zero, suc, ◌+◌, ◌≤◌, ◌<◌, ◌≡◌, ◌≢◌, refl, inl, inr, arith, ◌==◌, if◌then◌else◌, Bool-cases,
}
use native.Mathlib.Decide.{dec_lt}

pub sum : ℕ → (ℕ → ℕ) → ℕ
sum zero f = 0
sum (suc n) f = sum n f + f n

pub sum-zero : (n : ℕ) → sum n (λ l. 0) ≡ 0
unfolding sum
sum-zero zero = refl
sum-zero (suc n) = omega (arith, sum-zero n)

pub sum-exchange :
    (n : ℕ) (f g a c : ℕ → ℕ)
    → ((l : ℕ) → l < n → f l + a l ≡ g l + c l)
    → sum n f + sum n a ≡ sum n g + sum n c
unfolding sum
sum-exchange zero f g a c h = refl
sum-exchange (suc n) f g a c h =
    omega (arith, sum-exchange n f g a c (λ l k. h l (omega arith)), h n (omega arith))

sum-at_above : (n k : ℕ) (v : ℕ → ℕ) → n ≤ k → sum n (λ l. if l == k then v l else 0) ≡ 0
unfolding sum
sum-at_above zero k v h = refl
sum-at_above (suc n) k v h = ground (arith, sum-at_above n k v)

-- The sum of a function that is 0 but at one level.
pub sum-at : (n k : ℕ) (v : ℕ → ℕ) → k < n → sum n (λ l. if l == k then v l else 0) ≡ v k
unfolding sum
sum-at zero k v h = absurd (omega arith)
sum-at (suc n) k v h = elim (Bool-cases (n == k)) [
  | inl e ↦ ground (arith, sum-at_above n k v)
  | inr ne ↦ ground (arith, sum-at n k v)
]

pub le-sum : (n : ℕ) (f : ℕ → ℕ) (l : ℕ) → l < n → f l ≤ sum n f
unfolding sum
le-sum zero f l h = absurd (omega arith)
le-sum (suc n) f l h = elim (Bool-cases (l == n)) [
  | inl e ↦ ground arith
  | inr ne ↦ ground (arith, le-sum n f l)
]

pub two-le-sum : (n : ℕ) (f : ℕ → ℕ) (l k : ℕ) → l < n → k < n → l ≢ k → f l + f k ≤ sum n f
unfolding sum
two-le-sum zero f l k h h' ne = absurd (omega arith)
two-le-sum (suc n) f l k h h' ne = elim (Bool-cases (l == n)) [
  | inl e ↦ ground (arith, le-sum n f k)
  | inr no_l ↦ elim (Bool-cases (k == n)) [
    | inl e ↦ ground (arith, le-sum n f l)
    | inr no_k ↦ ground (arith, two-le-sum n f l k)
  ]
]

pub sum-pos : (n : ℕ) (f : ℕ → ℕ) → 0 < sum n f → (l : ℕ) × (l < n) × (0 < f l)
unfolding sum
sum-pos zero f h = absurd (omega arith)
sum-pos (suc n) f h = elim (dec_lt 0 (f n)) [
  | yes p ↦ (n, omega arith, p)
  | no p ↦ let r = sum-pos n f (omega arith) in (r.0, omega (arith, r.1), r.2)
]
