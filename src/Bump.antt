-- ===== src/Bump.antt =====
-- src/v8m_bump.c and src/v8m_bootstrap.c: the bump allocator over a static buffer, and the bootstrap
-- allocator that wraps it. `fetch_add` is atomic, so calls from several threads act one after another.
pub mod Laws
use v8malloc.Prelude.{
  ℕ, ◌+◌, ◌-◌, ◌*◌, Bool, true, false, not, ◌&&◌, ◌||◌, Option, none, some, List, [], ◌∷◌, ltb, leb,
  ◌==◌, if◌then◌else◌,
}
use v8malloc.Words.{wrap64, sub64, invert, bits_and}

pub record Bump : Type 0 where
  pub buffer : ℕ
  pub size : ℕ
  pub align : ℕ
  pub offset : ℕ

-- `(request + (align - 1)) & ~(align - 1)`, and the alignment itself for a request of 0.
unfoldable pub round_up : Bump → ℕ → ℕ
round_up b request =
    let mask = sub64 b.align 1 in
    let aligned = bits_and 64 (wrap64 (request + mask)) (invert 64 mask) in
    if aligned == 0 then b.align else aligned

unfoldable pub alloc : Option Bump → ℕ → Option Bump × ℕ
alloc none request = (none, 0)
alloc (some b) request =
    let aligned = round_up b request in
    let off = b.offset in
    let b' = record b { offset = wrap64 (off + aligned) } in
    if b.buffer == 0 || b.align == 0
    then (some b, 0)
    else if ltb b.size request
    then (some b, 0)
    else if ltb b.size off || ltb (b.size - off) aligned
    then (some b', 0)
    else (some b', wrap64 (b.buffer + off))

unfoldable pub owns : Option Bump → ℕ → Bool
owns none ptr = false
owns (some b) ptr =
    if b.buffer == 0 then false else leb b.buffer ptr && ltb ptr (wrap64 (b.buffer + b.size))

unfoldable pub remaining : Option Bump → ℕ → ℕ
unfolding owns
remaining none ptr = 0
remaining (some b) ptr =
    if not (owns (some b) ptr) then 0 else sub64 (wrap64 (b.buffer + b.size)) ptr

-- V8M_BOOTSTRAP_SIZE, four pages of 64 KiB.
abbrev pub bootstrap_size : ℕ
bootstrap_size = 65536 * 4

-- The static buffer stands at `buffer`, and V8M_BOOTSTRAP_ALIGN is 16.
abbrev pub bootstrap_bump : ℕ → Bump
bootstrap_bump buffer = record { buffer = buffer; size = bootstrap_size; align = 16; offset = 0 }

-- `v8m_bootstrap_alloc`: `none` is the abort on an exhausted buffer.
unfoldable pub bootstrap_alloc : Bump → ℕ → Option (Bump × ℕ)
unfolding alloc
bootstrap_alloc b size =
    let (after, ptr) = alloc (some b) size in
    elim after [ none ↦ none | some b' ↦ if ptr == 0 then none else some (b', ptr) ]

-- The calls of one buffer in the order in which they take effect, each with its request and result.
unfoldable pub run : Bump → List ℕ → List (ℕ × ℕ)
run b [] = []
run b (request ∷ rest) =
    let (after, ptr) = alloc (some b) request in
    elim after [ none ↦ [] | some b' ↦ (ptr, request) ∷ run b' rest ]
