-- ===== src/HugeSlab.antt =====
-- src/v8m_huge_slab.c: a huge page carved into 64 KiB slabs, one bit of a 32-bit bitmap for each.
-- A pointer is a number and NULL is 0; a pointer to a descriptor that may be NULL is an option.
pub mod Laws
use v8malloc.Prelude.{
  ℕ, ◌+◌, ◌-◌, ◌*◌, ◌/◌, ◌%◌, ◌^◌, Bool, true, false, not, ◌&&◌, ◌||◌, Option, none, some, ltb, leb,
  ◌==◌, if◌then◌else◌,
}
use v8malloc.Words.{wrap64, test_bit, set_bit, clear_bit, invert, bits_and, ctz, popcount}

-- V8M_PAGE_SIZE
abbrev pub page_size : ℕ
page_size = 65536

-- V8M_HUGE_SLABS_PER_HUGE where a huge page has 2 MiB.
abbrev pub slabs_per_huge_max : ℕ
slabs_per_huge_max = 32

pub record HugeSlab : Type 0 where
  pub base : ℕ
  pub bitmap : ℕ
  pub numa_node : ℕ
  pub slabs_per_huge : ℕ
  pub next : ℕ

-- `1U << count` is below 2^32 where it is evaluated.
unfoldable pub valid_mask : HugeSlab → ℕ
valid_mask slab =
    if slab.slabs_per_huge == 0
    then 0
    else if leb 32 slab.slabs_per_huge
    then 2 ^ 32 - 1
    else 2 ^ slab.slabs_per_huge - 1

unfoldable pub init : Option HugeSlab → ℕ → ℕ → ℕ → Option HugeSlab
init none base numa_node slabs_per_huge = none
init (some slab) base numa_node slabs_per_huge =
    let chosen = if slabs_per_huge == 0 then slabs_per_huge_max else slabs_per_huge in
    some (record {
      base = base;
      bitmap = 0;
      numa_node = numa_node;
      slabs_per_huge = if ltb slabs_per_huge_max chosen then slabs_per_huge_max else chosen;
      next = 0;
    })

-- The index of the first free slot.
unfoldable pub free_index : HugeSlab → ℕ
free_index slab = ctz 32 (bits_and 32 (invert 32 slab.bitmap) (valid_mask slab))

unfoldable pub alloc : Option HugeSlab → Option HugeSlab × ℕ
alloc none = (none, 0)
alloc (some slab) =
    let full = valid_mask slab in
    let idx = free_index slab in
    if slab.base == 0
    then (some slab, 0)
    else if bits_and 32 slab.bitmap full == full
    then (some slab, 0)
    else (
      some (record slab { bitmap = set_bit slab.bitmap idx }),
      wrap64 (slab.base + idx * page_size),
    )

-- `slot` is refused when it is below the base, is not aligned to a slot, lies past the live slots,
-- or is free already.
unfoldable pub free : Option HugeSlab → ℕ → Option HugeSlab × Bool
free none slot = (none, false)
free (some slab) slot =
    let offset = slot - slab.base in
    let idx = offset / page_size in
    if slab.base == 0 || slot == 0
    then (some slab, false)
    else if ltb slot slab.base
    then (some slab, false)
    else if not (bits_and 64 offset (page_size - 1) == 0)
    then (some slab, false)
    else if leb slab.slabs_per_huge idx
    then (some slab, false)
    else if not (test_bit slab.bitmap idx)
    then (some slab, false)
    else (some (record slab { bitmap = clear_bit slab.bitmap idx }), true)

unfoldable pub is_full : Option HugeSlab → Bool
is_full none = false
is_full (some slab) =
    let full = valid_mask slab in not (full == 0) && (bits_and 32 slab.bitmap full == full)

unfoldable pub is_empty : Option HugeSlab → Bool
is_empty none = true
is_empty (some slab) = bits_and 32 slab.bitmap (valid_mask slab) == 0

unfoldable pub live_count : Option HugeSlab → ℕ
live_count none = 0
live_count (some slab) = popcount 32 (bits_and 32 slab.bitmap (valid_mask slab))
