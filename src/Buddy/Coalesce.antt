-- ===== src/Buddy/Coalesce.antt =====
-- `v8m_buddy_coalesce_all` of src/v8m_buddy.c: the sweep that merges what the frees of the deferred mode
-- left apart, from the lowest level up.
pub mod Level
pub mod Sweep
use v8malloc.Prelude.{ℕ, zero, suc, ◌+◌, ◌-◌, Bool, not, ◌&&◌, List, [], ◌∷◌, if◌then◌else◌, length}
use v8malloc.Words.{test_bit}
use v8malloc.Buddy.{Buddy, levels, addr_to_index, list_remove, flip, coalesce_upward}

-- The sibling of the block at `node` is neither allocated nor split.
unfoldable pub is_mergeable : Buddy → ℕ → ℕ → Bool
is_mergeable b level node =
    let buddy_idx = flip (addr_to_index b node level) in
    not (test_bit (b.alloc_bitmap level) buddy_idx)
    && not (test_bit (b.split_bitmap level) buddy_idx)

-- One merge of the sweep.
unfoldable pub merge : Buddy → ℕ → ℕ → Buddy
merge b level node =
    let removed = list_remove b level node in
    (coalesce_upward (levels - 1 - level) removed node level (addr_to_index removed node level)).0

-- The walk along the free list of a level, from `nodes` on: after a merge it starts again at the head.
-- The result counts the merges. The fuel falls at each merge, and a merge shortens the list.
unfoldable pub coalesce_level : ℕ → Buddy → ℕ → List ℕ → Buddy × ℕ
coalesce_level fuel b level [] = (b, 0)
coalesce_level zero b level (node ∷ next) = (b, 0)
coalesce_level (suc fuel) b level (node ∷ next) =
    let merged = merge b level node in
    let again = coalesce_level fuel merged level (merged.free_lists level) in
    let skip = coalesce_level (suc fuel) b level next in
    if is_mergeable b level node then (again.0, again.1 + 1) else skip

-- The levels from `level` on, `k` of them.
unfoldable pub coalesce_from : ℕ → Buddy → ℕ → Buddy × ℕ
coalesce_from zero b level = (b, 0)
coalesce_from (suc k) b level =
    let here = coalesce_level (length (b.free_lists level)) b level (b.free_lists level) in
    let above = coalesce_from k here.0 (suc level) in (above.0, here.1 + above.1)

unfoldable pub coalesce_all : Buddy → Buddy × ℕ
coalesce_all b = coalesce_from (levels - 1) b 0
