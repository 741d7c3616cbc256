-- ===== src/Anchor/Laws.antt =====
-- A carve stays in the reservation, above all carves before it.
use v8malloc.Prelude.{
  ℕ, ◌+◌, ◌-◌, ◌*◌, ◌/◌, ◌%◌, ◌^◌, ◌≤◌, ◌<◌, ◌≡◌, ◌⊎◌, refl, ap, ◌∙◌, inl, inr, Bool, true, false,
  ◌||◌, ltb, leb, ◌==◌, arith, Bool-cases, eq→==,
}
use native.Mathlib.Nat.{mod-lt, mod_self, mul-mod_left, div-add-mod'}
use v8malloc.Words.{wrap64, sub64, bits_and}
use v8malloc.Words.Mask.{bits_and-invert, bits_and-mask, pow_pos, pow_mono}
use v8malloc.Anchor.{Anchor, round_up_pow2, aligned_target, carve, fail, owns}

-- A reservation that ends in the lower half of the address space, as those of user programs do.
pub record IsAnchor (res : Anchor) : Type 0 where
  pub based : 0 < res.base
  pub room : res.base + res.cap ≤ 2 ^ 63
  pub used : res.bump_offset ≤ res.cap

-- A successful carve: aligned, above the carves before, below the end, and behind it the next one.
pub record IsCarved (res : Anchor) (bytes alignment : ℕ) (res' : Anchor) (p : ℕ) : Type 0 where
  pub aligned : p % alignment ≡ 0
  pub above : res.base + res.bump_offset ≤ p
  pub below : p + bytes ≤ res.base + res.cap
  pub next : res'.base + res'.bump_offset ≡ p + bytes
  pub kept : IsAnchor res'
  pub owned : owns res' p ≡ true

module _ (res : Anchor) (j : ℕ) (v : IsAnchor res) (hj : j ≤ 62) where
  abbrev up : ℕ
  up = res.base + res.bump_offset + 2 ^ j - 1

  aligned_lem : aligned_target res (2 ^ j) ≡ up - up % 2 ^ j
  unfolding aligned_target round_up_pow2
  aligned_lem =
      let pos = pow_pos j in
      let le = pow_mono j 62 hj in
      let r = v.room in
      let u = v.used in
      let mask : sub64 (2 ^ j) 1 ≡ 2 ^ j - 1 = omega arith in
      let sum : wrap64 (wrap64 (res.base + res.bump_offset) + (2 ^ j - 1)) ≡ up = omega arith in
      let start : wrap64 (res.base + res.bump_offset) ≡ res.base + res.bump_offset = omega arith in
      elim (Bool-cases (leb (2 ^ j) 1)) [
        | inl t ↦
            (let by_one : up % 1 ≡ 0 = omega arith in
              let one : 2 ^ j ≡ 1 = ground arith in
              let even : up % 2 ^ j ≡ 0 = ap (λ n. up % n) one ∙ by_one in
              rw (t, start, even) (omega (arith, one)))
        | inr f ↦ rw (f, mask, sum) (bits_and-invert 64 j up (omega arith) (omega arith))
      ]

  aligned_mod : aligned_target res (2 ^ j) % 2 ^ j ≡ 0
  aligned_mod =
      let whole : up - up % 2 ^ j ≡ up / 2 ^ j * 2 ^ j = omega (arith, div-add-mod' up (2 ^ j)) in
      rw (aligned_lem, whole) (mul-mod_left (up / 2 ^ j) (2 ^ j))

  aligned_bounds :
      (res.base + res.bump_offset ≤ aligned_target res (2 ^ j))
      × (aligned_target res (2 ^ j) < res.base + res.bump_offset + 2 ^ j)
  aligned_bounds =
      let pos = pow_pos j in
      let low = mod-lt up {m = 2 ^ j} (omega arith) in rw aligned_lem (omega arith, omega arith)

pow_test :
    (j : ℕ)
    → j ≤ 62
    → ((2 ^ j == 0) ≡ false) × ((bits_and 64 (2 ^ j) (sub64 (2 ^ j) 1) == 0) ≡ true)
pow_test j h =
    let pos = pow_pos j in
    let le = pow_mono j 62 h in
    let mask : sub64 (2 ^ j) 1 ≡ 2 ^ j - 1 = omega arith in
    (
      ground arith,
      eq→== _ _ (
          ap (bits_and 64 (2 ^ j)) mask
          ∙ bits_and-mask 64 j (2 ^ j) (omega arith)
          ∙ mod_self (2 ^ j)),
    )

refused :
    (res : Anchor)
    → IsAnchor res
    → ((fail res).1 ≡ 0) × ((fail res).0.bump_offset ≡ res.bump_offset) × IsAnchor (fail res).0
unfolding fail
refused res v = (refl, refl, record { based = v.based; room = v.room; used = v.used })

-- `v8m_anchor_reservation_carve` of some bytes with an alignment that is a power of two either returns
-- NULL and leaves the offset, or returns an aligned address above all carves before, whose bytes end in
-- the reservation and at the new offset; the reservation keeps its invariant.
pub inside_or_refused :
    (protect_ok : Bool) (res : Anchor) (bytes j : ℕ)
    → IsAnchor res
    → 0 < bytes
    → j ≤ 62
    → let (res', p) = carve protect_ok res bytes (2 ^ j) in
      ((p ≡ 0) × (res'.bump_offset ≡ res.bump_offset) × IsAnchor res')
      ⊎ IsCarved res bytes (2 ^ j) res' p
unfolding carve owns
inside_or_refused protect_ok res bytes j v some_bytes hj =
    let (low, high) = aligned_bounds res j v hj in
    let based = v.based in
    let room = v.room in
    let used = v.used in
    let le = pow_mono j 62 hj in
    let start : (res.base == 0 || bytes == 0) ≡ false = ground arith in
    let power = pow_test j hj in
    let target : wrap64 (res.base + res.bump_offset) ≡ res.base + res.bump_offset = omega arith in
    let forward : ltb (aligned_target res (2 ^ j)) (res.base + res.bump_offset) ≡ false =
      ground arith in
    let offset : sub64 (aligned_target res (2 ^ j)) res.base
        ≡ aligned_target res (2 ^ j) - res.base =
      omega arith in
    elim (Bool-cases (
      ltb res.cap (aligned_target res (2 ^ j) - res.base)
      || ltb (res.cap - (aligned_target res (2 ^ j) - res.base)) bytes)) [
        | inl over ↦
            rw (start, power.0, power.1, target, forward, offset, over, carve) (inl (refused res v))
        | inr inside ↦ elim (Bool-cases protect_ok) [
          | inr bad ↦
              rw (start, power.0, power.1, target, forward, offset, inside, bad, carve)
                (inl (refused res v))
          | inl good ↦
              rw (start, power.0, power.1, target, forward, offset, inside, good, carve)
                (inr (record {
                  aligned = aligned_mod res j v hj;
                  above = low;
                  below = ground arith;
                  next = ground arith;
                  kept = record { based = based; room = room; used = ground arith };
                  owned = ground arith;
                }))
        ]
      ]
