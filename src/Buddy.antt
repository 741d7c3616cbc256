-- ===== src/Buddy.antt =====
-- src/v8m_buddy.c: the buddy allocator over one arena of 256 KiB. The arrays of seven levels are
-- functions of the level, and a free list is the list of the addresses of its nodes, head first: the
-- `next` and `prev` pointers that carry it in the free blocks are left out.
pub mod Geometry
pub mod Tiling
pub mod Count
pub mod Inv
pub mod Alloc
pub mod Free
pub mod Query
pub mod Base
pub mod Ranges
pub mod Reach
pub mod History
pub mod Coalesce
use v8malloc.Prelude.{
  ℕ, zero, suc, ◌+◌, ◌-◌, ◌*◌, ◌/◌, ◌%◌, ◌^◌, Bool, true, false, not, ◌&&◌, ◌||◌, Option, none,
  some, List, [], ◌∷◌, ltb, leb, ◌==◌, if◌then◌else◌,
}
use v8malloc.Words.{wrap64, wrap32, sub64, test_bit, set_bit, clear_bit, msb}

-- V8M_BUDDY_LEVELS, V8M_BUDDY_MIN_BLOCK and V8M_BUDDY_MAX_BLOCK.
abbrev pub levels : ℕ
levels = 7

abbrev pub min_block : ℕ
min_block = 4096

abbrev pub max_block : ℕ
max_block = 262144

pub record Buddy : Type 0 where
  pub arena_base : ℕ
  pub arena_size : ℕ
  pub free_lists : ℕ → List ℕ
  pub alloc_bitmap : ℕ → ℕ
  pub split_bitmap : ℕ → ℕ

-- A write to one element of an array.
unfoldable pub update : {A : Type 0} → (ℕ → A) → ℕ → A → ℕ → A
update f k v j = if j == k then v else f j

unfoldable pub size_to_level : ℕ → ℕ
size_to_level size =
    let shift = msb 64 (size - 1) + 1 in
    if leb size min_block then 0 else if ltb shift 12 then 0 else shift - 12

unfoldable pub level_to_size : ℕ → ℕ
level_to_size level = 2 ^ (12 + level)

unfoldable pub addr_to_index : Buddy → ℕ → ℕ → ℕ
addr_to_index b ptr level = wrap32 (sub64 ptr b.arena_base / level_to_size level)

unfoldable pub index_to_node : Buddy → ℕ → ℕ → ℕ
index_to_node b idx level = wrap64 (b.arena_base + wrap64 (idx * level_to_size level))

unfoldable pub list_push : Buddy → ℕ → ℕ → Buddy
list_push b level node = record b {
  free_lists = update b.free_lists level (node ∷ b.free_lists level);
}

-- The list without the first place at which `node` stands.
unfoldable pub erase : ℕ → List ℕ → List ℕ
erase node [] = []
erase node (x ∷ xs) = if x == node then xs else x ∷ erase node xs

unfoldable pub list_remove : Buddy → ℕ → ℕ → Buddy
list_remove b level node = record b {
  free_lists = update b.free_lists level (erase node (b.free_lists level));
}

unfoldable pub mark_alloc : Buddy → ℕ → ℕ → Buddy
mark_alloc b level idx = record b {
  alloc_bitmap = update b.alloc_bitmap level (set_bit (b.alloc_bitmap level) idx);
}

unfoldable pub clear_alloc : Buddy → ℕ → ℕ → Buddy
clear_alloc b level idx = record b {
  alloc_bitmap = update b.alloc_bitmap level (clear_bit (b.alloc_bitmap level) idx);
}

unfoldable pub mark_split : Buddy → ℕ → ℕ → Buddy
mark_split b level idx = record b {
  split_bitmap = update b.split_bitmap level (set_bit (b.split_bitmap level) idx);
}

unfoldable pub clear_split : Buddy → ℕ → ℕ → Buddy
clear_split b level idx = record b {
  split_bitmap = update b.split_bitmap level (clear_bit (b.split_bitmap level) idx);
}

-- `v8m_buddy_init`: the arena is one free block of the top level.
unfoldable pub init : ℕ → Buddy
init arena = record {
  arena_base = arena;
  arena_size = max_block;
  free_lists = update (λ level. []) (levels - 1) (arena ∷ []);
  alloc_bitmap = λ level. 0;
  split_bitmap = λ level. 0;
}

-- The search for a level with a free block, from `level` on; `k` levels are left.
unfoldable pub find_level : ℕ → Buddy → ℕ → ℕ
find_level zero b level = level
find_level (suc k) b level = elim (b.free_lists level) [
  | [] ↦ find_level k b (suc level)
  | node ∷ rest ↦ level
]

-- The loop that splits `node` from `level` down by `k` levels: the right half of each split goes to
-- the free list of the level below, the left half stays `node`.
unfoldable pub split_down : ℕ → Buddy → ℕ → ℕ → Buddy
split_down zero b node level = b
split_down (suc k) b node level =
    let parent_idx = addr_to_index b node level in
    let marked = mark_split b level parent_idx in
    let below = level - 1 in
    split_down k (list_push marked below (index_to_node marked (parent_idx * 2 + 1) below)) node
      below

-- `v8m_buddy_alloc`; the address 0 is NULL. The list popped is not empty where the loop stops below
-- the last level.
unfoldable pub alloc : Buddy → ℕ → Buddy × ℕ
alloc b size =
    let target = size_to_level size in
    let level = find_level (levels - target) b target in
    if size == 0
    then (b, 0)
    else if leb levels target
    then (b, 0)
    else if leb levels level
    then (b, 0)
    else elim (b.free_lists level) [
      | [] ↦ (b, 0)
      | node ∷ rest ↦
          let popped = record b { free_lists = update b.free_lists level rest } in
          let split = split_down (level - target) popped node level in
          (mark_alloc split target (addr_to_index split node target), node)
    ]

-- `idx ^ 1`
unfoldable pub flip : ℕ → ℕ
flip idx = if idx % 2 == 0 then idx + 1 else idx - 1

-- `coalesce_upward` from a block at `level` with `k` levels above it: the arena afterwards, and the
-- level at which the merged block was pushed.
unfoldable pub coalesce_upward : ℕ → Buddy → ℕ → ℕ → ℕ → Buddy × ℕ
coalesce_upward zero b current level idx = (list_push b level current, level)
coalesce_upward (suc k) b current level idx =
    let buddy_idx = flip idx in
    let sibling = index_to_node b buddy_idx level in
    let merged = clear_split (list_remove b level sibling) (suc level) (idx / 2) in
    let rest =
      coalesce_upward k merged (if ltb buddy_idx idx then sibling else current) (suc level)
        (idx / 2) in
    if test_bit (b.alloc_bitmap level) buddy_idx
    then (list_push b level current, level)
    else if test_bit (b.split_bitmap level) buddy_idx
    then (list_push b level current, level)
    else rest

unfoldable pub free : Buddy → ℕ → ℕ → Buddy
free b ptr size =
    let level = size_to_level size in
    let idx = addr_to_index b ptr level in
    if ptr == 0
    then b
    else if leb levels level
    then b
    else (coalesce_upward (levels - 1 - level) (clear_alloc b level idx) ptr level
        (addr_to_index (clear_alloc b level idx) ptr level)).0

unfoldable pub free_no_coalesce : Buddy → ℕ → ℕ → Buddy
free_no_coalesce b ptr size =
    let level = size_to_level size in
    let idx = addr_to_index b ptr level in
    if ptr == 0
    then b
    else if leb levels level
    then b
    else list_push (clear_alloc b level idx) level ptr

-- The loop of `v8m_buddy_block_size` from `level` on, `k` levels left.
unfoldable pub find_alloc : ℕ → Buddy → ℕ → ℕ → ℕ
find_alloc zero b offset level = 0
find_alloc (suc k) b offset level =
    let rest = find_alloc k b offset (suc level) in
    if test_bit (b.alloc_bitmap level) (wrap32 (offset / level_to_size level))
    then level_to_size level
    else rest

unfoldable pub block_size : Buddy → ℕ → ℕ
block_size b ptr =
    if ptr == 0
    then 0
    else if ltb ptr b.arena_base || leb (wrap64 (b.arena_base + b.arena_size)) ptr
    then 0
    else find_alloc levels b (ptr - b.arena_base) 0

-- The loop of `v8m_buddy_is_empty`, the last `k` levels left.
unfoldable pub empty_from : ℕ → Buddy → ℕ → Bool
empty_from zero b level = true
empty_from (suc k) b level =
    let rest = empty_from k b (suc level) in if b.alloc_bitmap level == 0 then rest else false

unfoldable pub is_empty : Buddy → Bool
is_empty b = empty_from levels b 0
