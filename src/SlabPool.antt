-- ===== src/SlabPool.antt =====
-- src/v8m_slab_pool.c: the tiny and small pages of a pool. Each class has a current page and a list of
-- partly used ones; a page that is full is on neither. Drained pages are parked for a while. A caller holds
-- the lock for a whole call, so that each call is one step.
pub mod Dispatch
pub mod Kind
pub mod Lists
pub mod InUse
pub mod Free
pub mod Alloc
use v8malloc.Prelude.{
  ℕ, zero, suc, ◌+◌, ◌-◌, ◌^◌, Bool, true, false, not, ◌&&◌, ◌||◌, List, [], ◌∷◌, ltb, leb, ◌==◌,
  if◌then◌else◌, length, update,
}
use v8malloc.Words.{wrap64}
use v8malloc.SizeClass.{Table}
use v8malloc.Slab.Small.{Memory}
use v8malloc.PageSource.{PageSource}
use v8malloc.NumaPool.{DescSource, Node, max_nodes}
use v8malloc.NumaPool
use v8malloc.SlabPool.Dispatch.{
  Page, used_count, capacity, size_class_of, slab_alloc_dispatch, slab_free_dispatch,
  slab_is_full_dispatch, slab_init_dispatch, with_arena,
}

-- V8M_PAGE_SIZE
abbrev pub page_size : ℕ
page_size = 65536

-- V8M_MEDIUM_FIRST_CLASS
abbrev pub medium_first_class : ℕ
medium_first_class = 32

-- V8M_SLAB_DRAINED_CAP
abbrev pub drained_cap : ℕ
drained_cap = 8

-- V8M_PARTIALS_SCAN_BUDGET
abbrev pub scan_budget : ℕ
scan_budget = 4

-- Pages are known by their addresses, and 0 is NULL.
pub record Class : Type 0 where
  pub current : ℕ
  pub partials : List ℕ

pub record Parked : Type 0 where
  pub page : ℕ
  pub idle : ℕ

-- The drained pages stand with the last one first. `pages` is the memory of the pages, by address.
pub record Pool : Type 0 where
  pub classes : ℕ → Class
  pub use_numa_pool : Bool
  pub drained : List Parked
  pub pages : ℕ → Page

-- The page heap and the global pool of huge pages.
pub record Source (Heap : Type 0) : Type 0 where
  pub heap : Heap
  pub numa_pool : List Node
  pub numa_ready : Bool

unfoldable pub init : (ℕ → Page) → Pool
init pages = record {
  classes = λ cls. record { current = 0; partials = [] };
  use_numa_pool = false;
  drained = [];
  pages = pages;
}

abbrev pub set_use_numa_pool : Pool → Bool → Pool
set_use_numa_pool pool use_numa_pool = record pool { use_numa_pool = use_numa_pool }

abbrev pub set_class : Pool → ℕ → Class → Pool
set_class pool cls c = record pool { classes = update pool.classes cls c }

abbrev pub write_page : Pool → ℕ → Page → Pool
write_page pool page p = record pool { pages = update pool.pages page p }

unfoldable pub drained_pop : Pool → Pool × ℕ
drained_pop pool = elim pool.drained [
  | [] ↦ (pool, 0)
  | last ∷ rest ↦ (record pool { drained = rest }, last.page)
]

-- A failed allocation of the current page leaves the class without one.
unfoldable pub try_current : Pool → ℕ → Pool × ℕ
try_current pool cls =
    let c = pool.classes cls in
    let (p, obj) = slab_alloc_dispatch c.current (pool.pages c.current) in
    if c.current == 0
    then (pool, 0)
    else if obj == 0
    then (set_class pool cls (record c { current = 0 }), 0)
    else (write_page pool c.current p, obj)

-- The page with the most used slots among the first `budget` ones, the last such one.
unfoldable pub scan : ℕ → (ℕ → Page) → List ℕ → ℕ → ℕ → ℕ
scan zero pages list best_used best = best
scan (suc budget) pages [] best_used best = best
scan (suc budget) pages (page ∷ rest) best_used best =
    let used = used_count (pages page) in
    scan budget pages rest (if leb best_used used then used else best_used)
      (if leb best_used used then page else best)

unfoldable pub unlink : List ℕ → ℕ → List ℕ
unlink [] page = []
unlink (x ∷ rest) page = let later = unlink rest page in if x == page then rest else x ∷ later

-- The loop over the partial pages; each round takes one off the list.
unfoldable pub try_partials : ℕ → Pool → ℕ → Pool × ℕ
try_partials zero pool cls = (pool, 0)
try_partials (suc rounds) pool cls = elim (pool.classes cls).partials [
  | [] ↦ (pool, 0)
  | head ∷ rest ↦
      (let page = scan scan_budget pool.pages (head ∷ rest) 0 head in
        let left = unlink (head ∷ rest) page in
        let (p, obj) = slab_alloc_dispatch page (pool.pages page) in
        let served =
          write_page (set_class pool cls (record { current = page; partials = left })) page p in
        let dropped = set_class pool cls (record { current = 0; partials = left }) in
        let again = try_partials rounds dropped cls in if obj == 0 then again else (served, obj))
]

abbrev pub unlink_from_class : Class → ℕ → Class
unlink_from_class c page =
    if c.current == page
    then record c { current = 0 }
    else record c { partials = unlink c.partials page }

-- The counts over the pages on the lists of the classes.
pub record Aggregate : Type 0 where
  pub pages_in_use : ℕ
  pub slots_total : ℕ
  pub slots_used : ℕ

unfoldable pub accumulate_page : Page → Aggregate → Aggregate
accumulate_page p out = record {
  pages_in_use = wrap64 (out.pages_in_use + 1);
  slots_total = wrap64 (out.slots_total + capacity p);
  slots_used = wrap64 (out.slots_used + used_count p);
}

unfoldable pub accumulate_list : (ℕ → Page) → List ℕ → Aggregate → Aggregate
accumulate_list pages [] out = out
accumulate_list pages (page ∷ rest) out =
    accumulate_list pages rest (accumulate_page (pages page) out)

unfoldable pub accumulate_class : (ℕ → Page) → Class → Aggregate → Aggregate
accumulate_class pages c out =
    let here = if c.current == 0 then out else accumulate_page (pages c.current) out in
    accumulate_list pages c.partials here

abbrev no_pages : Aggregate
no_pages = record { pages_in_use = 0; slots_total = 0; slots_used = 0 }

-- The classes from `cls` on, `k` of them.
unfoldable pub accumulate_from : ℕ → ℕ → Pool → Aggregate → Aggregate
accumulate_from zero cls pool out = out
accumulate_from (suc k) cls pool out =
    accumulate_from k (suc cls) pool (accumulate_class pool.pages (pool.classes cls) out)

unfoldable pub get_aggregate_stats : Pool → Aggregate
get_aggregate_stats pool = accumulate_from medium_first_class 0 pool no_pages

-- The counts of each class, as far as the table of the caller goes.
unfoldable pub class_stats_from : ℕ → ℕ → Pool → List Aggregate
class_stats_from zero cls pool = []
class_stats_from (suc k) cls pool =
    accumulate_class pool.pages (pool.classes cls) no_pages ∷ class_stats_from k (suc cls) pool

unfoldable pub get_class_stats : Pool → ℕ → List Aggregate
get_class_stats pool out_capacity =
    class_stats_from
      (if ltb out_capacity medium_first_class then out_capacity else medium_first_class) 0 pool

abbrev pub drained_count : Pool → ℕ
drained_count pool = length pool.drained

unfoldable pub null_entries : List Parked → ℕ
null_entries [] = 0
null_entries (p ∷ rest) = (if p.page == 0 then 1 else 0) + null_entries rest

-- The number of violations, where the count fits the array.
unfoldable pub validate : Pool → ℕ
validate pool = (if ltb drained_cap (length pool.drained) then 1 else 0) + null_entries pool.drained

module _ {Heap : Type 0} (os : PageSource Heap) (descs : DescSource Heap) where
  unfoldable pub release_slab_page_immediate : Source Heap → Bool → ℕ → Source Heap
  release_slab_page_immediate src use_numa_pool page =
      let r = NumaPool.release_slab os descs src.heap src.numa_pool page in
      if use_numa_pool && src.numa_ready
      then (if r.2
          then record src { heap = r.0; numa_pool = r.1 }
          else record src { heap = os.page_heap_free r.0 page page_size; numa_pool = r.1 })
      else record src { heap = os.page_heap_free src.heap page page_size }

  unfoldable pub drained_push : Heap → Pool → ℕ → Heap × Pool × Bool
  drained_push heap pool page =
      if leb drained_cap (length pool.drained) then (heap, pool, false) else (
        os.advise_dont_need heap page page_size,
        record pool { drained = record { page = page; idle = 0 } ∷ pool.drained },
        true,
      )

  unfoldable pub acquire_slab_page : ℕ → Source Heap → Pool → Source Heap × Pool × ℕ
  acquire_slab_page current_node src pool =
      let (pool', parked) = drained_pop pool in
      let node = if leb max_nodes current_node then 0 else current_node in
      let carved = NumaPool.carve_slab os descs src.heap src.numa_pool node in
      let src' : Source Heap =
        if pool.use_numa_pool && src.numa_ready
        then record src { heap = carved.0; numa_pool = carved.1 }
        else src in
      let (heap', page) = os.page_heap_alloc src'.heap page_size page_size in
      if not (parked == 0)
      then (src, pool', parked)
      else if pool.use_numa_pool && src.numa_ready && not (carved.2 == 0)
      then (src', pool', carved.2)
      else (record src' { heap = heap' }, pool', page)

  unfoldable pub release_slab_page : Source Heap → Pool → ℕ → Source Heap × Pool
  release_slab_page src pool page =
      let (heap', pool', pushed) = drained_push src.heap pool page in
      if pushed
      then (record src { heap = heap' }, pool')
      else (release_slab_page_immediate src pool.use_numa_pool page, pool)

  unfoldable pub free : Source Heap → Pool → ℕ → ℕ → Source Heap × Pool × Bool
  free src pool page obj =
      let was_full = slab_is_full_dispatch (pool.pages page) in
      let (p, became_empty) = slab_free_dispatch page (pool.pages page) obj in
      let freed = write_page pool page p in
      let cls = size_class_of p in
      let c = pool.classes cls in
      let (src', released) =
        release_slab_page src (set_class freed cls (unlink_from_class c page)) page in
      if leb medium_first_class cls
      then (src, freed, became_empty)
      else if became_empty
      then (src', released, became_empty)
      else if was_full && not (c.current == page)
      then (src, set_class freed cls (record c { partials = page ∷ c.partials }), became_empty)
      else (src, freed, became_empty)

  -- The pages that have waited long enough are released, the first parked one first.
  unfoldable pub sweep_drained :
      ℕ → Bool → Source Heap → List Parked → Source Heap × List Parked × ℕ
  sweep_drained max_idle_ticks use_numa src [] = (src, [], 0)
  sweep_drained max_idle_ticks use_numa src (last ∷ earlier) =
      let (src', kept, released) = sweep_drained max_idle_ticks use_numa src earlier in
      let ticks = if ltb last.idle (2 ^ 32 - 1) then last.idle + 1 else last.idle in
      if leb max_idle_ticks ticks
      then (release_slab_page_immediate src' use_numa last.page, kept, released + 1)
      else (src', record last { idle = ticks } ∷ kept, released)

  unfoldable pub sweep_idle : ℕ → Source Heap → Pool → Source Heap × Pool × ℕ
  sweep_idle max_idle_ticks src pool =
      let (src', kept, released) =
        sweep_drained max_idle_ticks pool.use_numa_pool src pool.drained in
      (src', record pool { drained = kept }, released)

  abbrev pub purge_drained : Source Heap → Pool → Source Heap × Pool × ℕ
  purge_drained = sweep_idle 0

  unfoldable pub release_list : Source Heap → Bool → List ℕ → Source Heap
  release_list src use_numa [] = src
  release_list src use_numa (page ∷ rest) =
      release_list (release_slab_page_immediate src use_numa page) use_numa rest

  -- The classes from `cls` on, `k` of them.
  unfoldable pub release_classes : ℕ → ℕ → Source Heap → Pool → Source Heap
  release_classes zero cls src pool = src
  release_classes (suc k) cls src pool =
      let c = pool.classes cls in
      let first =
        if c.current == 0
        then src
        else release_slab_page_immediate src pool.use_numa_pool c.current in
      release_classes k (suc cls) (release_list first pool.use_numa_pool c.partials) pool

  unfoldable pub release_parked : Source Heap → Bool → List Parked → Source Heap
  release_parked src use_numa [] = src
  release_parked src use_numa (last ∷ earlier) =
      release_slab_page_immediate (release_parked src use_numa earlier) use_numa last.page

  unfoldable pub destroy : Source Heap → Pool → Source Heap × Pool
  destroy src pool = (
    release_parked (release_classes medium_first_class 0 src pool) pool.use_numa_pool pool.drained,
    record pool { classes = λ cls. record { current = 0; partials = [] }; drained = [] },
  )

  module _ (table : Table) (current_cpu current_node : ℕ) (garbage : ℕ → Memory) where
    unfoldable pub acquire_fresh_page : Source Heap → Pool → ℕ → ℕ → ℕ → Source Heap × Pool × ℕ
    acquire_fresh_page src pool size_class owner_thread arena_id =
        let (src', pool', page) = acquire_slab_page current_node src pool in
        let blank =
          with_arena
            (slab_init_dispatch table current_cpu page (garbage page) size_class owner_thread)
            arena_id in
        let (p, obj) = slab_alloc_dispatch page blank in
        let c = pool'.classes size_class in
        if page == 0 then (src', pool', 0) else (
          src',
          write_page (set_class pool' size_class (record c { current = page })) page p,
          obj,
        )

    -- One object: from the current page, from a partial one, or from a fresh one.
    unfoldable pub alloc_one : Source Heap → Pool → ℕ → ℕ → ℕ → Source Heap × Pool × ℕ
    alloc_one src pool size_class owner_thread arena_id =
        let (pool', obj) = try_current pool size_class in
        let (pool'', obj') =
          try_partials (length (pool'.classes size_class).partials) pool' size_class in
        let fresh = acquire_fresh_page src pool'' size_class owner_thread arena_id in
        if not (obj == 0)
        then (src, pool', obj)
        else if not (obj' == 0)
        then (src, pool'', obj')
        else fresh

    unfoldable pub alloc_arena : Source Heap → Pool → ℕ → ℕ → ℕ → Source Heap × Pool × ℕ
    alloc_arena src pool size_class owner_thread arena_id =
        let r = alloc_one src pool size_class owner_thread arena_id in
        if leb medium_first_class size_class then (src, pool, 0) else r

    abbrev pub alloc : Source Heap → Pool → ℕ → ℕ → Source Heap × Pool × ℕ
    alloc src pool size_class owner_thread = alloc_arena src pool size_class owner_thread 0

    -- The chain of a batch, its head first.
    unfoldable pub batch_loop :
        ℕ → Source Heap → Pool → ℕ → ℕ → ℕ → List ℕ → Source Heap × Pool × List ℕ
    batch_loop zero src pool size_class owner_thread arena_id chain = (src, pool, chain)
    batch_loop (suc rounds) src pool size_class owner_thread arena_id chain =
        let (src', pool', obj) = alloc_one src pool size_class owner_thread arena_id in
        let later = batch_loop rounds src' pool' size_class owner_thread arena_id (obj ∷ chain) in
        if obj == 0 then (src', pool', chain) else later

    unfoldable pub alloc_batch : Source Heap → Pool → ℕ → ℕ → ℕ → ℕ → Source Heap × Pool × List ℕ
    alloc_batch src pool size_class owner_thread arena_id max =
        let r = batch_loop max src pool size_class owner_thread arena_id [] in
        if leb medium_first_class size_class || max == 0 then (src, pool, []) else r
