-- ===== src/Buddy/Ranges.antt =====
-- The bytes of two blocks of the arena: nested, or without a byte in common.
use v8malloc.Prelude.{
  ℕ, zero, suc, ◌+◌, ◌-◌, ◌*◌, ◌/◌, ◌≤◌, ◌≡◌, ◌≢◌, ◌⊎◌, inl, inr, arith, Bool-cases, ltb, subst,
}
use native.Mathlib.Nat.{mul-le-mul_right}
use v8malloc.Buddy.{level_to_size}
use v8malloc.Buddy.Geometry.{shr, level_to_size-suc}

-- A block of level `l` lies in the block of a higher level that holds its page.
nested_range :
    (d l p : ℕ)
    → (shr p (l + d) * level_to_size (l + d) ≤ shr p l * level_to_size l)
      × ((shr p l + 1) * level_to_size l ≤ (shr p (l + d) + 1) * level_to_size (l + d))
unfolding shr
nested_range zero l p =
    let e : l ≡ l + 0 = omega arith in
    subst
      (λ m.
        (shr p m * level_to_size m ≤ shr p l * level_to_size l)
        × ((shr p l + 1) * level_to_size l ≤ (shr p m + 1) * level_to_size m))
      e (omega arith, omega arith)
nested_range (suc d) l p =
    let e : suc (l + d) ≡ l + suc d = omega arith in
    subst
      (λ m.
        (shr p m * level_to_size m ≤ shr p l * level_to_size l)
        × ((shr p l + 1) * level_to_size l ≤ (shr p m + 1) * level_to_size m))
      e
      (let s = shr p (l + d) in
        let size = level_to_size (l + d) in
        let ih = nested_range d l p in
        let double = level_to_size-suc (l + d) in
        let low = mul-le-mul_right {m = s / 2 * 2} {n = s} size (omega arith) in
        let high = mul-le-mul_right {m = s + 1} {n = (s / 2 + 1) * 2} size (omega arith) in
        rw double (omega (arith, ih.0), omega (arith, ih.1)))

-- Two blocks whose pages lie in different blocks of the level `m` have no byte in common.
pub ranges_apart :
    (l m p q : ℕ)
    → l ≤ m
    → shr p m ≢ shr q m
    → ((shr p l + 1) * level_to_size l ≤ shr q m * level_to_size m)
      ⊎ ((shr q m + 1) * level_to_size m ≤ shr p l * level_to_size l)
ranges_apart l m p q h ne =
    let d = m - l in
    let e : l + d ≡ m = omega arith in
    let nest : (shr p m * level_to_size m ≤ shr p l * level_to_size l)
        × ((shr p l + 1) * level_to_size l ≤ (shr p m + 1) * level_to_size m) =
      subst
        (λ m.
          (shr p m * level_to_size m ≤ shr p l * level_to_size l)
          × ((shr p l + 1) * level_to_size l ≤ (shr p m + 1) * level_to_size m))
        e (nested_range d l p) in
    elim (Bool-cases (ltb (shr p m) (shr q m))) [
      | inl t ↦
          (let lt : shr p m + 1 ≤ shr q m = ground arith in
            inl (omega (arith, nest.1, mul-le-mul_right (level_to_size m) lt)))
      | inr f ↦
          (let gt : shr q m + 1 ≤ shr p m = ground arith in
            inr (omega (arith, nest.0, mul-le-mul_right (level_to_size m) gt)))
    ]
