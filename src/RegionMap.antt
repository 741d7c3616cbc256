-- ===== src/RegionMap.antt =====
-- src/v8m_page_heap.c, the region map: the mapped ranges of memory, sorted by their start, found by
-- binary search. The writers hold a lock, so that each is one step; the lock-free reader sees views that
-- its environment chooses, guarded by a sequence counter.
pub mod Search
pub mod Owns
pub mod Laws
pub mod Fast
pub mod Validate
use v8malloc.Prelude.{
  ℕ, zero, suc, ◌+◌, ◌-◌, ◌/◌, ◌*◌, ◌%◌, ◌^◌, Bool, true, false, not, ◌&&◌, Option, none, some,
  List, [], ◌∷◌, ltb, leb, ◌==◌, if◌then◌else◌, length, get_or, set,
}
use v8malloc.Words.{wrap64, invert, bits_and}

-- V8M_REGION_MAP_CAPACITY
abbrev pub capacity : ℕ
capacity = 4096

-- V8M_REGION_NODE_UNBOUND
abbrev pub node_unbound : ℕ
node_unbound = 65535

pub record Region : Type 0 where
  pub start : ℕ
  pub end : ℕ
  pub node : ℕ
  pub is_anchor : Bool
  pub promoted_at_tsc : ℕ

-- `g_regions[0..g_region_count)` and `g_region_seq`.
pub record RegionMap : Type 0 where
  pub regions : List Region
  pub seq : ℕ

abbrev pub no_region : Region
no_region = record { start = 0; end = 0; node = 0; is_anchor = false; promoted_at_tsc = 0 }

abbrev pub region_at : List Region → ℕ → Region
region_at regions i = get_or regions i no_region

-- The loop of the binary searches: `goes_right mid` sends the search to the right of `mid`. The width
-- of the range is enough fuel.
unfoldable pub search : ℕ → (ℕ → Bool) → ℕ → ℕ → ℕ
search zero goes_right low high = low
search (suc fuel) goes_right low high =
    let mid = low + (high - low) / 2 in
    let right = search fuel goes_right (mid + 1) high in
    let left = search fuel goes_right low mid in
    if ltb low high then (if goes_right mid then right else left) else low

unfoldable pub region_lower_bound : List Region → ℕ → ℕ
region_lower_bound regions start =
    let count = length regions in
    search count (λ mid. ltb (region_at regions mid).start start) 0 count

-- `none` is SIZE_MAX.
unfoldable pub region_find_by_start : List Region → ℕ → Option ℕ
region_find_by_start regions start =
    let idx = region_lower_bound regions start in
    if ltb idx (length regions) && ((region_at regions idx).start == start) then some idx else none

-- The `memmove` that shifts the tail right, and the write at the gap.
abbrev pub insert_at : List Region → ℕ → Region → List Region
insert_at regions zero r = r ∷ regions
insert_at [] (suc i) r = r ∷ []
insert_at (x ∷ regions) (suc i) r = x ∷ insert_at regions i r

-- The `memmove` that closes the gap at an index.
abbrev pub remove_at : List Region → ℕ → List Region
remove_at [] i = []
remove_at (x ∷ regions) zero = regions
remove_at (x ∷ regions) (suc i) = x ∷ remove_at regions i

-- The result 0 is `true`, the result -1 is `false`.
unfoldable pub register_with_flags : RegionMap → ℕ → ℕ → Bool → RegionMap × Bool
register_with_flags m start bytes is_anchor =
    let idx = region_lower_bound m.regions start in
    let entry : Region = record {
      start = start;
      end = wrap64 (start + bytes);
      node = node_unbound;
      is_anchor = is_anchor;
      promoted_at_tsc = 0;
    } in
    if leb capacity (length m.regions)
    then (m, false)
    else (record { regions = insert_at m.regions idx entry; seq = wrap64 (m.seq + 1 + 1) }, true)

unfoldable pub record_promote : RegionMap → ℕ → ℕ → RegionMap
record_promote m start tsc = elim (region_find_by_start m.regions start) [
  | none ↦ m
  | some idx ↦ record m {
    regions = set m.regions idx (record (region_at m.regions idx) { promoted_at_tsc = tsc });
  }
]

unfoldable pub record_node : RegionMap → ℕ → ℕ → RegionMap
record_node m start node = elim (region_find_by_start m.regions start) [
  | none ↦ m
  | some idx ↦ record m {
    regions = set m.regions idx (record (region_at m.regions idx) { node = node });
  }
]

-- The node, and `*out_is_anchor`.
unfoldable pub unregister_with_flags : RegionMap → ℕ → RegionMap × ℕ × Bool
unregister_with_flags m start = elim (region_find_by_start m.regions start) [
  | none ↦ (m, node_unbound, false)
  | some idx ↦ (
    record { regions = remove_at m.regions idx; seq = wrap64 (m.seq + 1 + 1) },
    (region_at m.regions idx).node,
    (region_at m.regions idx).is_anchor,
  )
]

-- The search of `v8m_page_heap_owns`: the number of regions that start at `addr` or below.
unfoldable pub upper_bound : List Region → ℕ → ℕ
upper_bound regions addr =
    let count = length regions in
    search count (λ mid. leb (region_at regions mid).start addr) 0 count

unfoldable pub owns : RegionMap → ℕ → Bool
owns m addr =
    let low = upper_bound m.regions addr in
    if addr == 0
    then false
    else if ltb 0 low
    then ltb addr (region_at m.regions (low - 1)).end
    else false

abbrev pub live_region_count : RegionMap → ℕ
live_region_count m = length m.regions

abbrev one_if : Bool → ℕ
one_if b = if b then 1 else 0

-- The loop of `v8m_page_heap_validate`, after the region `prev`.
unfoldable pub issues_after : Region → List Region → ℕ
unfolding one_if
issues_after prev [] = 0
issues_after prev (cur ∷ rest) =
    one_if (ltb cur.start prev.start)
    + one_if (ltb cur.start prev.end)
    + one_if (leb cur.end cur.start)
    + issues_after cur rest

unfoldable pub validate : RegionMap → ℕ
validate m = elim m.regions [ [] ↦ 0 | (first ∷ rest) ↦ issues_after first rest ]

-- The cached verdict of a thread.
pub record OwnsCache : Type 0 where
  pub page_base : ℕ
  pub cache_seq : ℕ
  pub result : Bool

-- What the reader sees in one round: the counter, the table, the counter again.
pub record View : Type 0 where
  pub seq1 : ℕ
  pub table : List Region
  pub seq2 : ℕ

abbrev pub page_of : ℕ → ℕ
page_of addr = bits_and 64 addr (invert 64 65535)

-- One round of the loop, on the whole table.
unfoldable pub view_owns : List Region → ℕ → Bool
view_owns table addr =
    let low = upper_bound table addr in
    let region = region_at table (low - 1) in
    if ltb 0 low && leb low (length table)
    then leb region.start addr && ltb addr region.end
    else false

-- The rounds of the loop. `none` is -1, the answer that sends the caller to the lock.
unfoldable pub owns_rounds : List View → ℕ → OwnsCache → OwnsCache × Option Bool
owns_rounds [] addr cache = (cache, none)
owns_rounds (v ∷ views) addr cache =
    let rest = owns_rounds views addr cache in
    let owned = view_owns v.table addr in
    if v.seq1 % 2 == 1
    then rest
    else if v.seq1 == v.seq2
    then (record { page_base = page_of addr; cache_seq = v.seq2; result = owned }, some owned)
    else rest

-- `v8m_page_heap_owns_fast`: `seq_now` is the counter that the cache is checked against, `views` are
-- the four rounds.
unfoldable pub owns_fast : ℕ → List View → ℕ → OwnsCache → OwnsCache × Option Bool
owns_fast seq_now views addr cache =
    let slow = owns_rounds views addr cache in
    if addr == 0
    then (cache, some false)
    else if (page_of addr == cache.page_base)
        && ((seq_now == cache.cache_seq) && (seq_now % 2 == 0))
    then (cache, some cache.result)
    else slow
