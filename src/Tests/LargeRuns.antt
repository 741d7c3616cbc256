-- ===== src/Tests/LargeRuns.antt =====
-- Runs of the large allocations and of the recycle cache.
use v8malloc.Prelude.{
  ℕ, suc, ◌+◌, ◌*◌, ◌%◌, ◌^◌, ◌≤◌, ◌≡◌, ◌≢◌, ◌⊎◌, refl, inl, inr, true, false, none, some, List, [],
  ◌∷◌, ltb, if◌then◌else◌, Bool-cases, ltb→lt, arith, length,
}
use v8malloc.LargeCache.{Entry, cache_cap, take, put}
use v8malloc.LargeCache.Laws.{copies, is_entry, take-copies, put-copies}
use v8malloc.Large.{
  PageHeap, Config, State, LargeMeta, alloc_with_offset, alloc_aligned, usable_size, free,
}
use v8malloc.Large.Laws.{IsPageHeap, AllRegions, NullOrUsable, large_or_null}
use v8malloc.Large.Aligned.{aligned_or_null}

-- A page heap that hands out memory upward: its state is the number of pages and bytes used.
abbrev heap_ops : PageHeap ℕ
heap_ops = record {
  page_heap_alloc = λ heap bytes alignment.
      if ltb (65536 * (heap + 1) + bytes) (2 ^ 64)
      then (heap + bytes, 65536 * (heap + 1))
      else (heap, 0);
  page_heap_free = λ heap region bytes. heap;
  protect = λ heap start bytes. true;
}

heap_ops-IsPageHeap : IsPageHeap heap_ops
heap_ops-IsPageHeap = record {
  aligned = λ heap bytes alignment. elim (Bool-cases (ltb (65536 * (heap + 1) + bytes) (2 ^ 64))) [
    | inl t ↦ rw t (let room = ltb→lt _ _ t in inr (omega arith, room))
    | inr f ↦ rw f (inl refl)
  ];
}

abbrev no_meta : LargeMeta
no_meta = record {
  magic = 0;
  size_class = 0;
  object_size = 0;
  capacity = 0;
  used_count = 0;
  owner_thread = 0;
  free_list_head = 0;
  next = 0;
  mmap_size = 0;
  guard_bytes = 0;
  requested_size = 0;
}

abbrev two_entries : List Entry
two_entries =
    record { region = 131072; mmap_size = 65536 }
    ∷ record { region = 262144; mmap_size = 131072 }
    ∷ []

abbrev state : State ℕ
state = record {
  heap = 9;
  cache = two_entries;
  metas = λ region. no_meta;
  bytes = λ a. 0;
  stats = record {
    large_alloc_count = 0;
    large_free_count = 0;
    large_bytes_in_use = 0;
    huge_alloc_count = 0;
    huge_free_count = 0;
    huge_bytes_in_use = 0;
  };
}

state-AllRegions : AllRegions state.cache
state-AllRegions = (inr (refl, omega arith), (inr (refl, omega arith), tt))

abbrev debugging : Config
debugging = record { debug = true; huge_pages = false }

large_or_null_example :
    NullOrUsable heap_ops 300000 2048
      (alloc_with_offset heap_ops debugging state 300000 2048 (2 ^ 16) 7)
large_or_null_example =
    large_or_null heap_ops debugging state 300000 2048 16 7 heap_ops-IsPageHeap state-AllRegions
      (omega arith) (omega arith)

aligned_or_null_example :
    ((alloc_aligned heap_ops debugging state 300000 (2 ^ 13) 7).1 ≡ 0)
    ⊎ (((alloc_aligned heap_ops debugging state 300000 (2 ^ 13) 7).1 % 2 ^ 13 ≡ 0)
        × (300000
            ≤ usable_size heap_ops
                (alloc_aligned heap_ops debugging state 300000 (2 ^ 13) 7).0
                (alloc_aligned heap_ops debugging state 300000 (2 ^ 13) 7).1)
        × (free heap_ops
              (alloc_aligned heap_ops debugging state 300000 (2 ^ 13) 7).0
              (alloc_aligned heap_ops debugging state 300000 (2 ^ 13) 7).1
            ≢ none))
aligned_or_null_example =
    aligned_or_null heap_ops debugging state 300000 13 7 heap_ops-IsPageHeap state-AllRegions
      (omega arith)

take-copies_example :
    (suc (length (take two_entries 65536).0) ≡ 2)
    × ((region other : ℕ)
        → copies region other (take two_entries 65536).0
            + (if is_entry region other
                  (record { region = (take two_entries 65536).1; mmap_size = 65536 })
                then 1
                else 0)
          ≡ copies region other two_entries)
take-copies_example = take-copies two_entries 65536 0 (omega arith) refl

put-copies_example :
    (length (put two_entries 524288 65536).0 ≤ cache_cap)
    × ((region size : ℕ)
        → copies region size (put two_entries 524288 65536).0
            + elim (put two_entries 524288 65536).1 [
              | none ↦ 0
              | some e ↦ (if is_entry region size e then 1 else 0)
            ]
          ≡ copies region size two_entries
            + (if is_entry region size (record { region = 524288; mmap_size = 65536 })
                then 1
                else 0))
put-copies_example = put-copies two_entries 524288 65536 (omega arith)
