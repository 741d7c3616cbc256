-- ===== src/SizeClass/Fit.antt =====
-- `v8m_size_class` picks the smallest class that holds the request.
use v8malloc.Prelude.{
  ℕ, zero, suc, ◌+◌, ◌-◌, ◌*◌, ◌/◌, ◌%◌, ◌^◌, ◌≤◌, ◌<◌, ◌≡◌, refl, ap, ◌∙◌, ◌⊎◌, inl, inr, arith,
  leb, ltb, ◌==◌, ==→eq, if◌then◌else◌, get_or, Bool-cases, holds_below, holds_below-at,
}
use native.Mathlib.Nat.{pow-suc, mul_comm, div-mul-le_self, lt-div-mul-add}
use mathlib.Core.Path.{ap₂}
use native.Mathlib.Decide.{dec_lt}
use v8malloc.Words.Mask.{pow_pos, pow_mono}
use v8malloc.Words.{msb}
use v8malloc.Words.Scan.{msb_bounds}
use v8malloc.SizeClass.{
  class_to_size, size_class_size, size_class, tiny_class, medium_class, small_class, class_huge,
  large_max_size, num_size_classes,
}

-- The class `c` is the smallest of the table that holds `req` bytes.
pub record Fits (req c : ℕ) : Type 0 where
  pub in_range : c < num_size_classes
  pub holds : req ≤ size_class_size class_to_size c
  pub least : (c ≡ 0) ⊎ (size_class_size class_to_size (c - 1) < req)

tiny-size : (c : ℕ) → c < 8 → size_class_size class_to_size c ≡ 8 * (c + 1)
unfolding size_class_size holds_below
tiny-size c h = ==→eq _ _ (holds_below-at (λ c. get_or class_to_size c 0 == 8 * (c + 1)) 8 c h refl)

small-size :
    (c : ℕ) → c < 25 → size_class_size class_to_size (7 + c) ≡ 2 ^ (4 + c / 4) * (4 + c % 4)
unfolding size_class_size holds_below
small-size c h = ==→eq _ _ (
    holds_below-at (λ c. get_or class_to_size (7 + c) 0 == 2 ^ (4 + c / 4) * (4 + c % 4)) 25 c h
      refl)

medium-size : (g : ℕ) → g < 10 → size_class_size class_to_size (31 + g) ≡ 2 ^ (12 + g)
unfolding size_class_size holds_below
medium-size g h =
    ==→eq _ _ (holds_below-at (λ g. get_or class_to_size (31 + g) 0 == 2 ^ (12 + g)) 10 g h refl)

tiny_class-Fits : (req : ℕ) → req ≤ 64 → Fits req (tiny_class req)
unfolding tiny_class
tiny_class-Fits zero h = record { in_range = omega arith; holds = omega arith; least = inl refl }
tiny_class-Fits (suc n) h =
    let value : (suc n + (if suc n == 0 then 1 else 0) + 7) / 8 - 1 ≡ n / 8 = ground arith in
    let cls : tiny_class (suc n) ≡ n / 8 = ap (λ m. m % 2 ^ 32) value ∙ omega arith in
    rw cls (record {
      in_range = omega arith;
      holds = omega (arith, tiny-size (n / 8) (omega arith));
      least = elim (Bool-cases (n / 8 == 0)) [
        | inl z ↦ inl (==→eq _ _ z)
        | inr nz ↦
            let pos : 0 < n / 8 = ground arith in
            inr (omega (arith, tiny-size (n / 8 - 1) (omega arith)))
      ];
    })

-- The exponent of a power between two others lies between theirs.
lt_of_pow : (a b : ℕ) → 2 ^ a < 2 ^ b → a < b
lt_of_pow a b h = elim (dec_lt a b) [
  | yes p ↦ p
  | no p ↦ absurd (omega (arith, pow_mono b a (omega arith)))
]

-- The index of the highest bit of a number between two powers of two.
pub msb_between :
    (lo hi n : ℕ) → 2 ^ lo ≤ n → n < 2 ^ hi → hi ≤ 64 → (lo ≤ msb 64 n) × (msb 64 n < hi)
msb_between lo hi n h p q =
    let bounds = msb_bounds 64 n (omega (arith, pow_pos lo)) (omega (arith, pow_mono hi 64 q)) in
    (
      omega (arith, lt_of_pow lo (suc (msb 64 n)) (omega (arith, bounds.1))),
      lt_of_pow (msb 64 n) hi (omega (arith, bounds.0)),
    )

medium-Fits : (req m : ℕ) → 12 ≤ m → m < 21 → 2 ^ m < req → req ≤ 2 ^ suc m → Fits req (20 + m)
medium-Fits req m lo hi h p =
    let here : size_class_size class_to_size (20 + m) ≡ 2 ^ suc m =
      ap (size_class_size class_to_size) (omega arith)
      ∙ medium-size (m - 11) (omega arith)
      ∙ ap (λ e. 2 ^ e) (omega arith) in
    let below : size_class_size class_to_size (20 + m - 1) ≡ 2 ^ m =
      ap (size_class_size class_to_size) (omega arith)
      ∙ medium-size (m - 12) (omega arith)
      ∙ ap (λ e. 2 ^ e) (omega arith) in
    record {
      in_range = omega arith;
      holds = omega (arith, here);
      least = inr (omega (arith, below));
    }

medium_class-Fits : (req : ℕ) → 4096 < req → req ≤ large_max_size → Fits req (medium_class req)
unfolding medium_class
medium_class-Fits req h p =
    let m = msb_between 12 21 (req - 1) (omega arith) (omega arith) (omega arith) in
    let bounds = msb_bounds 64 (req - 1) (omega arith) (omega arith) in
    let cls : medium_class req ≡ 20 + msb 64 (req - 1) = ground (arith, m.0, m.1) in
    rw cls (
      medium-Fits req (msb 64 (req - 1)) m.0 m.1 (omega (arith, bounds.0))
        (omega (arith, bounds.1)))

-- A request above the largest class is huge.
pub size_class_huge : (req : ℕ) → large_max_size < req → req < 2 ^ 64 → size_class req ≡ class_huge
unfolding size_class
size_class_huge req h p =
    let m = msb_between 21 64 (req - 1) (omega arith) (omega arith) (omega arith) in
    ground (arith, m.0, m.1)

small-size-below :
    (g s : ℕ)
    → g < 6
    → s < 4
    → size_class_size class_to_size (7 + (g * 4 + s)) ≡ 2 ^ (4 + g) * (4 + s)
small-size-below g s h p =
    let q : (g * 4 + s) / 4 ≡ g = omega arith in
    let r : (g * 4 + s) % 4 ≡ s = omega arith in
    small-size (g * 4 + s) (omega arith) ∙ ap₂ (λ a b. 2 ^ (4 + a) * (4 + b)) q r

small-size-here :
    (g s : ℕ)
    → g < 6
    → s < 4
    → size_class_size class_to_size (8 + (g * 4 + s)) ≡ 2 ^ (4 + g) * (5 + s)
small-size-here g s h p =
    let q : (g * 4 + suc s) / 4 ≡ g + (if s == 3 then 1 else 0) = ground arith in
    let r : (g * 4 + suc s) % 4 ≡ (if s == 3 then 0 else suc s) = ground arith in
    let two : 2 ^ (4 + (g + 1)) ≡ 2 * 2 ^ (4 + g) =
      ap (λ e. 2 ^ e) (omega arith) ∙ pow-suc 2 (4 + g) ∙ omega arith in
    ap (size_class_size class_to_size) (omega arith)
    ∙ small-size (g * 4 + suc s) (omega arith)
    ∙ ap₂ (λ a b. 2 ^ (4 + a) * (4 + b)) q r
    ∙ elim (Bool-cases (s == 3)) [
      | inl e ↦ rw e (omega (arith, two, ap (λ (t : ℕ). 2 ^ (4 + g) * t) (==→eq _ _ e)))
      | inr e ↦ rw e (ap₂ (λ a b. 2 ^ (4 + a) * b) (omega arith) (omega arith))
    ]

-- Between four and eight times `p` the quotient by `p` is one of four.
quotient-range : (n p : ℕ) → 4 * p ≤ n → n < 8 * p → (4 ≤ n / p) × (n / p < 8)
quotient-range n p h k =
    let pos : 0 < p = omega arith in
    let a = div-mul-le_self n p in
    let b = lt-div-mul-add {a = n} {b = p} pos in (grind arith, grind arith)

small-Fits :
    (req g : ℕ)
    → g < 6
    → 4 * 2 ^ (4 + g) < req
    → req ≤ 8 * 2 ^ (4 + g)
    → Fits req (8 + (g * 4 + (req - 1) / 2 ^ (4 + g) % 4))
small-Fits req g h lo hi =
    let p = 2 ^ (4 + g) in
    let q = (req - 1) / p in
    let range = quotient-range (req - 1) p (omega arith) (omega arith) in
    let s = q % 4 in
    let qs : q ≡ 4 + s = omega (arith, range.0, range.1) in
    let a = div-mul-le_self (req - 1) p in
    let b = lt-div-mul-add {a = req - 1} {b = p} (omega arith) in
    let qp : q * p ≡ p * (4 + s) = ap (λ (t : ℕ). t * p) qs ∙ mul_comm (4 + s) p in
    record {
      in_range = omega arith;
      holds = omega (arith, small-size-here g s h (omega arith));
      least = inr (
          omega (
            arith,
            small-size-below g s h (omega arith),
            ap (size_class_size class_to_size) (before (g * 4 + s)),
          ));
    }
  where
    before : (c : ℕ) → 8 + c - 1 ≡ 7 + c
    before c = omega arith

four : (e : ℕ) → 2 ^ suc (suc e) ≡ 4 * 2 ^ e
four e = omega (arith, pow-suc 2 (suc e), pow-suc 2 e)

small_class-Fits : (req : ℕ) → 64 < req → req ≤ 4096 → Fits req (small_class req)
unfolding small_class
small_class-Fits req h p =
    let m = msb_between 6 12 (req - 1) (omega arith) (omega arith) (omega arith) in
    let bounds = msb_bounds 64 (req - 1) (omega arith) (omega arith) in
    let g = msb 64 (req - 1) - 6 in
    let shift : msb 64 (req - 1) - 2 ≡ 4 + g = omega (arith, m.0) in
    let low : 2 ^ msb 64 (req - 1) ≡ 4 * 2 ^ (4 + g) =
      ap (λ e. 2 ^ e) (omega (arith, m.0)) ∙ four (4 + g) in
    let high : 2 ^ suc (msb 64 (req - 1)) ≡ 8 * 2 ^ (4 + g) =
      omega (arith, low, pow-suc 2 (msb 64 (req - 1))) in
    let cls : small_class req ≡ 8 + (g * 4 + (req - 1) / 2 ^ (4 + g) % 4) =
      rw shift (omega (arith, m.0, m.1)) in
    rw cls
      (small-Fits req g (omega (arith, m.1)) (omega (arith, bounds.0)) (omega (arith, bounds.1)))

-- `v8m_size_class` picks the smallest class that holds the request.
pub size_class-Fits : (req : ℕ) → req ≤ large_max_size → Fits req (size_class req)
unfolding size_class
size_class-Fits req h = elim (Bool-cases (leb req 64)) [
  | inl tiny ↦ rw tiny (tiny_class-Fits req (ground arith))
  | inr other ↦ elim (Bool-cases (ltb 4096 req)) [
    | inl medium ↦ rw (other, medium) (medium_class-Fits req (ground arith) h)
    | inr small ↦ rw (other, small) (small_class-Fits req (ground arith) (ground arith))
  ]
]
