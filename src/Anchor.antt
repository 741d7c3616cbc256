-- ===== src/Anchor.antt =====
-- src/v8m_anchor_reservation.c: ranges carved from one reserved range of addresses, upward only. The
-- answers of the system (`mmap`, `mprotect`, the page size) are arguments. A lock makes each call one step. A
-- reservation that is NULL is refused as one without a base is.
pub mod Laws
use v8malloc.Prelude.{
  ℕ, ◌+◌, ◌-◌, ◌*◌, ◌^◌, Bool, true, false, not, ◌&&◌, ◌||◌, Option, none, some, ltb, leb, ◌==◌,
  if◌then◌else◌,
}
use v8malloc.Words.{wrap64, sub64, bits_and, invert}

-- V8M_ANCHOR_DEFAULT_CAP_BYTES
abbrev pub default_cap : ℕ
default_cap = 268435456

pub record Anchor : Type 0 where
  pub base : ℕ
  pub cap : ℕ
  pub bump_offset : ℕ
  pub carve_calls : ℕ
  pub carve_failures : ℕ
  pub release_calls : ℕ

abbrev pub zeroed : Anchor
zeroed = record {
  base = 0;
  cap = 0;
  bump_offset = 0;
  carve_calls = 0;
  carve_failures = 0;
  release_calls = 0;
}

unfoldable pub round_up_pow2 : ℕ → ℕ → ℕ
round_up_pow2 value alignment =
    if leb alignment 1
    then value
    else bits_and 64 (wrap64 (value + sub64 alignment 1)) (invert 64 (sub64 alignment 1))

-- `mapped` is what `mmap` returns, `none` on MAP_FAILED, and `lock_ok` whether the lock could be set up.
-- The result 0 is `true`.
unfoldable pub init : ℕ → Option ℕ → Bool → ℕ → Anchor × Bool
init page_size none lock_ok cap = (zeroed, false)
init page_size (some mapped) lock_ok cap =
    let rounded = round_up_pow2 (if cap == 0 then default_cap else cap) page_size in
    if lock_ok then (record zeroed { base = mapped; cap = rounded }, true) else (zeroed, false)

unfoldable pub destroy : Anchor → Anchor
destroy res = if res.base == 0 then res else zeroed

-- The address to which the next carve is rounded up.
unfoldable pub aligned_target : Anchor → ℕ → ℕ
aligned_target res alignment = round_up_pow2 (wrap64 (res.base + res.bump_offset)) alignment

unfoldable pub fail : Anchor → Anchor × ℕ
fail res = (record res { carve_failures = wrap64 (res.carve_failures + 1) }, 0)

-- `protect_ok` is whether `mprotect` succeeds.
unfoldable pub carve : Bool → Anchor → ℕ → ℕ → Anchor × ℕ
carve protect_ok res bytes asked =
    let alignment = if asked == 0 then 1 else asked in
    let target = wrap64 (res.base + res.bump_offset) in
    let aligned = aligned_target res alignment in
    let offset = sub64 aligned res.base in
    if res.base == 0 || bytes == 0
    then (res, 0)
    else if not (bits_and 64 alignment (sub64 alignment 1) == 0)
    then (res, 0)
    else if ltb aligned target
    then fail res
    else if ltb res.cap offset || ltb (res.cap - offset) bytes
    then fail res
    else if not protect_ok
    then fail res
    else (
      record res {
        bump_offset = wrap64 (offset + bytes);
        carve_calls = wrap64 (res.carve_calls + 1);
      },
      aligned,
    )

unfoldable pub release : Anchor → ℕ → ℕ → Anchor × Bool
release res ptr bytes =
    if res.base == 0 || (ptr == 0 || bytes == 0)
    then (res, false)
    else if ltb ptr res.base
        || (leb res.cap (ptr - res.base) || ltb (res.cap - (ptr - res.base)) bytes)
    then (res, false)
    else (record res { release_calls = wrap64 (res.release_calls + 1) }, true)

unfoldable pub owns : Anchor → ℕ → Bool
owns res ptr =
    if res.base == 0 || ptr == 0 then false else leb res.base ptr && ltb (ptr - res.base) res.cap

unfoldable pub remaining : Anchor → ℕ
remaining res =
    if res.base == 0
    then 0
    else if leb res.cap res.bump_offset
    then 0
    else res.cap - res.bump_offset
