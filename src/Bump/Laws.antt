-- ===== src/Bump/Laws.antt =====
-- What a call of `v8m_bump_alloc` gives the caller, and why two calls never give the same bytes.
use v8malloc.Prelude.{
  ℕ, ◌+◌, ◌-◌, ◌*◌, ◌%◌, ◌^◌, ◌≤◌, ◌<◌, ◌≡◌, ◌≢◌, refl, inl, inr, some, arith, ltb, ◌==◌,
  if◌then◌else◌, Bool-cases,
}
use mathlib.Core.Path.{ap₂, Σ_path}
use native.Mathlib.Nat.{mod-lt}
use v8malloc.Prelude.{◌||◌, suc, length, List, [], ◌∷◌}
use v8malloc.Words.{wrap64, sub64}
use v8malloc.Words.Mask
use v8malloc.Bump.{Bump, round_up, alloc, run}

-- A buffer that is not NULL, lies below the end of the address space and takes at most half of it,
-- with an alignment of 2^j at most as large.
pub record IsValid (j : ℕ) (b : Bump) : Type 0 where
  pub based : 0 < b.buffer
  pub room : b.buffer + b.size < 2 ^ 64
  pub half : b.size ≤ 2 ^ 62
  pub power : b.align ≡ 2 ^ j
  pub fine : j ≤ 62

module _ {j : ℕ} {b : Bump} (v : IsValid j b) (request : ℕ) (small : request ≤ b.size) where
  align-pos : 0 < b.align
  align-pos = omega (arith, v.power, Mask.pow_pos j)

  align-le : b.align ≤ 2 ^ 62
  align-le = omega (arith, v.power, Mask.pow_mono j 62 v.fine)

  mask_lem : sub64 b.align 1 ≡ 2 ^ j - 1
  mask_lem = omega (arith, align-pos, align-le, v.power)

  round_up_lem : round_up b request ≡ (
      let up = request + (2 ^ j - 1) - (request + (2 ^ j - 1)) % 2 ^ j in
      if up == 0 then b.align else up)
  unfolding round_up
  round_up_lem =
      let le = align-le in
      let wrapped : wrap64 (request + (2 ^ j - 1)) ≡ request + (2 ^ j - 1) =
        omega (arith, v.half, v.power) in
      rw
        (
          mask_lem,
          wrapped,
          Mask.bits_and-invert 64 j (request + (2 ^ j - 1)) (omega (arith, v.fine))
              (omega (arith, v.half, v.power)),
        )
        refl

  -- The bytes taken cover the request, and are a positive multiple of the alignment.
  pub round_up_bounds :
      (request ≤ round_up b request)
      × (0 < round_up b request)
      × (round_up b request ≤ request + b.align)
  round_up_bounds =
      let e = round_up_lem in
      let p = v.power in
      let pos = align-pos in
      let m = mod-lt (request + (2 ^ j - 1)) {m = 2 ^ j} (omega arith) in ground arith

-- A call that returns a pointer returns the old offset in the buffer; the requested bytes lie inside
-- the buffer, and the new offset lies behind them.
pub alloc_in_buffer :
    {j : ℕ} (b b' : Bump) (request p : ℕ)
    → IsValid j b
    → alloc (some b) request ≡ (some b', p)
    → p ≢ 0
    → (p ≡ b.buffer + b.offset)
      × (p + request ≤ b.buffer + b.size)
      × (b.offset + request ≤ b'.offset)
      × IsValid j b'
unfolding alloc
alloc_in_buffer b b' request p v e ne = elim (Bool-cases (ltb b.size request)) [
  | inl large ↦ absurd (ground arith)
  | inr fits ↦
      let bounds = round_up_bounds v request (ground arith) in
      ground (arith, v.based, v.room, v.half)
]

-- The state and the pointer that a call leaves.
after : Bump → ℕ → Bump
after b request =
    if b.buffer == 0 || b.align == 0
    then b
    else if ltb b.size request
    then b
    else record b { offset = wrap64 (b.offset + round_up b request) }

alloc-after : (b : Bump) (request : ℕ) → (alloc (some b) request).0 ≡ some (after b request)
unfolding alloc after
alloc-after b request = ground arith

-- However a call ends, it moves the offset forward by at most the buffer's size and alignment.
record Advances (b b' : Bump) : Type 0 where
  forward : b.offset ≤ b'.offset
  bounded : b'.offset ≤ b.offset + b.size + b.align
  buffer_kept : b'.buffer ≡ b.buffer
  size_kept : b'.size ≡ b.size
  align_kept : b'.align ≡ b.align

after-Advances :
    {j : ℕ} (b : Bump) (request : ℕ)
    → IsValid j b
    → b.offset + b.size + b.align < 2 ^ 64
    → Advances b (after b request)
unfolding after
after-Advances b request v room = elim (Bool-cases (ltb b.size request)) [
  | inl large ↦ ground arith
  | inr fits ↦ let bounds = round_up_bounds v request (ground arith) in ground arith
]

-- Every pointer of a list of results that is not NULL lies at or above an address.
abbrev pub AllAbove : ℕ → List (ℕ × ℕ) → Type 0
AllAbove a [] = Unit {0}
AllAbove a ((p, request) ∷ rest) = (p ≢ 0 → a ≤ p) × AllAbove a rest

-- The bytes of each result lie below those of all later ones.
abbrev pub Separated : List (ℕ × ℕ) → Type 0
Separated [] = Unit {0}
Separated ((p, request) ∷ rest) = (p ≢ 0 → AllAbove (p + request) rest) × Separated rest

AllAbove-mono : (a c : ℕ) (rest : List (ℕ × ℕ)) → c ≤ a → AllAbove a rest → AllAbove c rest
AllAbove-mono a c [] h above = tt
AllAbove-mono a c ((p, request) ∷ rest) h above =
    (λ ne. omega (arith, above.0 ne), AllAbove-mono a c rest h above.1)

run-cons :
    (b : Bump) (request : ℕ) (rest : List ℕ)
    → run b (request ∷ rest) ≡ ((alloc (some b) request).1, request) ∷ run (after b request) rest
unfolding run
run-cons b request rest = rw (alloc-after b request, run) refl

after-buffer : (b : Bump) (request : ℕ) → (after b request).buffer ≡ b.buffer
unfolding after
after-buffer b request = ground arith

after-IsValid : {j : ℕ} (b : Bump) (request : ℕ) → IsValid j b → IsValid j (after b request)
unfolding after
after-IsValid b request v = ground arith

module _ {j : ℕ} (b : Bump) (request : ℕ) (v : IsValid j b) where
  -- What a successful first call leaves for the calls after it.
  first_call :
      (alloc (some b) request).1 ≢ 0
      → ((alloc (some b) request).1 ≡ b.buffer + b.offset)
        × ((alloc (some b) request).1 + request
            ≤ (after b request).buffer + (after b request).offset)
  first_call ne =
      let done =
        alloc_in_buffer b (after b request) request (alloc (some b) request).1 v
          (Σ_path (alloc-after b request) refl) ne in
      let kept : (after b request).buffer ≡ b.buffer = after-buffer b request in omega arith

  module _ (n : ℕ) (room : b.offset + suc n * (b.size + b.align) < 2 ^ 64) where
    steps : Advances b (after b request)
    steps = after-Advances b request v (omega arith)

    room-after :
        (after b request).offset + n * ((after b request).size + (after b request).align) < 2 ^ 64
    room-after =
        let s = steps in
        let same : n * ((after b request).size + (after b request).align) ≡ n * (b.size + b.align) =
          ap₂ (λ x y. n * (x + y)) s.size_kept s.align_kept in
        omega arith

run-AllAbove :
    {j : ℕ} (b : Bump) (requests : List ℕ)
    → IsValid j b
    → b.offset + length requests * (b.size + b.align) < 2 ^ 64
    → AllAbove (b.buffer + b.offset) (run b requests)
run-AllAbove b [] v room = unfold run in tt
run-AllAbove b (request ∷ rest) v room =
    let s = steps b request v (length rest) room in
    let later =
      run-AllAbove (after b request) rest (after-IsValid b request v)
        (room-after b request v (length rest) room) in
    rw run-cons (
      λ ne. omega (arith, (first_call b request v ne).0),
      AllAbove-mono ((after b request).buffer + (after b request).offset) _ _ (omega arith) later,
    )

-- No two calls on one buffer get the same byte: as long as the offset, which failed calls move too,
-- has room below 2^64, the bytes of every successful call lie below those of every later one.
pub run-Separated :
    {j : ℕ} (b : Bump) (requests : List ℕ)
    → IsValid j b
    → b.offset + length requests * (b.size + b.align) < 2 ^ 64
    → Separated (run b requests)
run-Separated b [] v room = unfold run in tt
run-Separated b (request ∷ rest) v room =
    let v' = after-IsValid b request v in
    let room' = room-after b request v (length rest) room in
    rw run-cons (
      λ ne.
          AllAbove-mono _ _ _ (first_call b request v ne).1
            (run-AllAbove (after b request) rest v' room'),
      run-Separated (after b request) rest v' room',
    )
