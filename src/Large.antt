-- ===== src/Large.antt =====
-- src/v8m_large.c: the allocations that get a region of the page heap of their own, with a header at the
-- start of the region. The page heap is the interface `PageHeap`; the recycle cache is LargeCache.
pub mod Laws
pub mod Aligned
use v8malloc.Prelude.{
  ℕ, zero, suc, ◌+◌, ◌-◌, ◌*◌, ◌%◌, ◌^◌, Bool, true, false, not, ◌&&◌, ◌||◌, Option, none, some,
  List, [], ◌∷◌, ltb, leb, ◌==◌, if◌then◌else◌, length,
}
use v8malloc.Words.{wrap16, wrap64, sub64, bits_and, invert}
use v8malloc.SizeClass.{size_class, class_huge, large_max_size}
use v8malloc.Slab.{page_size, slab_header_size, magic_word, ptr_to_meta}
use v8malloc.LargeCache.{Entry}
use v8malloc.LargeCache as Cache

-- V8M_LARGE_HUGE_TAG
abbrev pub huge_tag : ℕ
huge_tag = 65535

-- V8M_LARGE_HUGE_ALIGN where a huge page has 2 MiB.
abbrev pub huge_align : ℕ
huge_align = 2097152

-- V8M_LARGE_GIGANTIC_ALIGN
abbrev pub gigantic_align : ℕ
gigantic_align = 1073741824

-- V8M_LARGE_REDZONE_BYTE
abbrev pub redzone_byte : ℕ
redzone_byte = 0xCD

-- V8M_LARGE_REDZONE_MAX_BYTES
abbrev pub redzone_max : ℕ
redzone_max = 64

-- What the code calls of the page heap, and `mprotect`, which answers whether it succeeded.
pub record PageHeap (Heap : Type 0) : Type 0 where
  pub page_heap_alloc : Heap → ℕ → ℕ → Heap × ℕ
  pub page_heap_free : Heap → ℕ → ℕ → Heap
  pub protect : Heap → ℕ → ℕ → Bool

pub record LargeMeta : Type 0 where
  pub magic : ℕ
  pub size_class : ℕ
  pub object_size : ℕ
  pub capacity : ℕ
  pub used_count : ℕ
  pub owner_thread : ℕ
  pub free_list_head : ℕ
  pub next : ℕ
  pub mmap_size : ℕ
  pub guard_bytes : ℕ
  pub requested_size : ℕ

-- `v8m_config_get` of the two options that the code reads.
pub record Config : Type 0 where
  pub debug : Bool
  pub huge_pages : Bool

pub record Stats : Type 0 where
  pub large_alloc_count : ℕ
  pub large_free_count : ℕ
  pub large_bytes_in_use : ℕ
  pub huge_alloc_count : ℕ
  pub huge_free_count : ℕ
  pub huge_bytes_in_use : ℕ

-- The page heap, the cache, the header of each region, the other bytes, and the counters.
pub record State (Heap : Type 0) : Type 0 where
  pub heap : Heap
  pub cache : List Entry
  pub metas : ℕ → LargeMeta
  pub bytes : ℕ → ℕ
  pub stats : Stats

unfoldable pub round_up_pow2 : ℕ → ℕ → ℕ
round_up_pow2 value multiple =
    bits_and 64 (sub64 (wrap64 (value + multiple)) 1) (invert 64 (sub64 multiple 1))

unfoldable pub redzone_span : LargeMeta → ℕ → ℕ
redzone_span meta header_offset =
    let accessible = sub64 (sub64 meta.mmap_size header_offset) meta.guard_bytes in
    let tail = accessible - meta.requested_size in
    if leb accessible meta.requested_size
    then 0
    else if ltb redzone_max tail
    then redzone_max
    else tail

-- The `memset` of `k` bytes from an address on.
unfoldable pub fill_bytes : ℕ → ℕ → (ℕ → ℕ) → ℕ → ℕ
fill_bytes k from bytes a = if leb from a && ltb a (from + k) then redzone_byte else bytes a

unfoldable pub fill_redzone : (ℕ → ℕ) → ℕ → LargeMeta → ℕ → ℕ → ℕ
fill_redzone bytes user meta header_offset =
    fill_bytes (redzone_span meta header_offset) (user + meta.requested_size) bytes

-- The loop over the red zone; `false` is the abort.
unfoldable pub intact : ℕ → ℕ → (ℕ → ℕ) → Bool
intact zero from bytes = true
intact (suc k) from bytes =
    let rest = intact k (suc from) bytes in if bytes from == redzone_byte then rest else false

unfoldable pub check_redzone : (ℕ → ℕ) → ℕ → LargeMeta → ℕ → Bool
check_redzone bytes user meta header_offset =
    intact (redzone_span meta header_offset) (user + meta.requested_size) bytes

unfoldable pub count_alloc : Stats → Bool → ℕ → Stats
count_alloc stats is_huge mmap_size =
    if is_huge
    then record stats {
      huge_alloc_count = wrap64 (stats.huge_alloc_count + 1);
      huge_bytes_in_use = wrap64 (stats.huge_bytes_in_use + mmap_size);
    }
    else record stats {
      large_alloc_count = wrap64 (stats.large_alloc_count + 1);
      large_bytes_in_use = wrap64 (stats.large_bytes_in_use + mmap_size);
    }

unfoldable pub count_free : Stats → Bool → ℕ → Stats
count_free stats was_huge mmap_size =
    if was_huge
    then record stats {
      huge_free_count = wrap64 (stats.huge_free_count + 1);
      huge_bytes_in_use = sub64 stats.huge_bytes_in_use mmap_size;
    }
    else record stats {
      large_free_count = wrap64 (stats.large_free_count + 1);
      large_bytes_in_use = sub64 stats.large_bytes_in_use mmap_size;
    }

-- The header that an allocation writes.
unfoldable pub new_meta : Bool → ℕ → ℕ → ℕ → LargeMeta
new_meta debug size mmap_size owner_thread =
    let cls = v8malloc.SizeClass.size_class size in
    record {
      magic = magic_word;
      size_class = if cls == class_huge then huge_tag else wrap16 cls;
      object_size = 0;
      capacity = 1;
      used_count = 1;
      owner_thread = owner_thread;
      free_list_head = 0;
      next = 0;
      mmap_size = mmap_size;
      guard_bytes = if debug then page_size else 0;
      requested_size = if debug then size else 0;
    }

-- `mmap_size` of a request, with the guard page of the debug mode; `none` where it overflows.
unfoldable pub region_size : Bool → ℕ → ℕ → ℕ → Option ℕ
region_size debug size header_offset alignment =
    let rounded = round_up_pow2 (wrap64 (header_offset + size)) alignment in
    if ltb (2 ^ 64 - 1 - header_offset - alignment) size
    then none
    else if debug
    then (if ltb (2 ^ 64 - 1 - page_size) rounded then none else some (rounded + page_size))
    else some rounded

module _ {Heap : Type 0} (os : PageHeap Heap) where
  -- A region from the cache, or else from the page heap.
  unfoldable pub obtain : Bool → State Heap → ℕ → ℕ → State Heap × ℕ
  obtain debug st mmap_size alignment =
      let (rest, cached) = Cache.take st.cache mmap_size in
      let (heap', fresh) = os.page_heap_alloc st.heap mmap_size alignment in
      if debug
      then (record st { heap = heap' }, fresh)
      else if cached == 0
      then (record st { heap = heap'; cache = rest }, fresh)
      else (record st { cache = rest }, cached)

  -- The end of an allocation: the header, the red zone and the counters.
  unfoldable pub install : Bool → State Heap → ℕ → ℕ → ℕ → ℕ → ℕ → State Heap × ℕ
  install debug st region size mmap_size header_offset owner_thread =
      let meta = new_meta debug size mmap_size owner_thread in
      let user = wrap64 (region + header_offset) in
      (
        record {
          heap = st.heap;
          cache = st.cache;
          metas = λ r. if r == region then meta else st.metas r;
          bytes = if debug then fill_redzone st.bytes user meta header_offset else st.bytes;
          stats = count_alloc st.stats (v8malloc.SizeClass.size_class size == class_huge) mmap_size;
        },
        user,
      )

  -- The guard page of the debug mode; where it cannot be set up the region goes back.
  unfoldable pub equip : Config → State Heap → ℕ → ℕ → ℕ → ℕ → ℕ → State Heap × ℕ
  equip config st region size mmap_size header_offset owner_thread =
      let guard = wrap64 (region + mmap_size) - page_size in
      if region == 0
      then (st, 0)
      else if config.debug && not (os.protect st.heap guard page_size)
      then (record st { heap = os.page_heap_free st.heap region mmap_size }, 0)
      else install config.debug st region size mmap_size header_offset owner_thread

  unfoldable pub alloc_with_offset : Config → State Heap → ℕ → ℕ → ℕ → ℕ → State Heap × ℕ
  alloc_with_offset config st size header_offset alignment owner_thread =
      elim (region_size config.debug size header_offset alignment) [
        | none ↦ (st, 0)
        | some mmap_size ↦
            let (st', region) = obtain config.debug st mmap_size alignment in
            equip config st' region size mmap_size header_offset owner_thread
      ]

  unfoldable pub alloc : Config → State Heap → ℕ → ℕ → State Heap × ℕ
  alloc config st size owner_thread =
      let alignment =
        if not config.huge_pages
        then page_size
        else if leb gigantic_align size
        then gigantic_align
        else if ltb large_max_size size
        then huge_align
        else page_size in
      if size == 0
      then (st, 0)
      else alloc_with_offset config st size slab_header_size alignment owner_thread

  unfoldable pub alloc_aligned : Config → State Heap → ℕ → ℕ → ℕ → State Heap × ℕ
  alloc_aligned config st size alignment owner_thread =
      if size == 0
      then (st, 0)
      else if alignment == 0 || leb alignment slab_header_size
      then alloc_with_offset config st size slab_header_size page_size owner_thread
      else if leb page_size alignment
      then (st, 0)
      else alloc_with_offset config st size alignment page_size owner_thread

  -- `none` is the abort on a damaged red zone.
  unfoldable pub free : State Heap → ℕ → Option (State Heap)
  free st obj =
      let region = ptr_to_meta obj in
      let meta = st.metas region in
      let mmap_size = meta.mmap_size in
      let cleared = record meta { magic = 0; used_count = 0 } in
      let counted : State Heap = record st {
        metas = λ r. if r == region then cleared else st.metas r;
        stats = count_free st.stats (meta.size_class == huge_tag) mmap_size;
      } in
      let (cache', evicted) = Cache.put st.cache region mmap_size in
      if obj == 0
      then some st
      else if not (meta.guard_bytes == 0)
          && not (check_redzone st.bytes obj meta (bits_and 64 obj (page_size - 1)))
      then none
      else if meta.guard_bytes == 0
      then elim evicted [
        | none ↦ some (record counted { cache = cache' })
        | some e ↦ some (record counted {
          cache = cache';
          heap = if e.region == 0 then st.heap else os.page_heap_free st.heap e.region e.mmap_size;
        })
      ]
      else some (record counted { heap = os.page_heap_free st.heap region mmap_size })

  unfoldable pub usable_size : State Heap → ℕ → ℕ
  usable_size st obj =
      let meta = st.metas (ptr_to_meta obj) in
      if obj == 0
      then 0
      else sub64 (sub64 meta.mmap_size (bits_and 64 obj (page_size - 1))) meta.guard_bytes

  -- The loop that gives the entries back to the page heap.
  unfoldable pub release_all : Heap → List Entry → Heap
  release_all heap [] = heap
  release_all heap (e ∷ rest) = release_all (os.page_heap_free heap e.region e.mmap_size) rest

  unfoldable pub drain : State Heap → State Heap × ℕ
  drain st = (record st { heap = release_all st.heap st.cache; cache = [] }, length st.cache)
