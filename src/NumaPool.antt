-- ===== src/NumaPool.antt =====
-- src/v8m_numa_pool.c: for each memory node the huge pages that are carved into slabs. The lock of a node
-- is held for a whole call, so that a call is one step. The descriptor of a huge page is known by the base
-- of the page, which no two descriptors share, where the code compares pointers to descriptors.
pub mod Lists
pub mod Slots
pub mod Laws
use v8malloc.Prelude.{
  ℕ, zero, suc, ◌+◌, ◌-◌, ◌*◌, ◌^◌, Bool, true, false, not, ◌&&◌, ◌||◌, Option, none, some, List,
  [], ◌∷◌, ltb, leb, ◌==◌, if◌then◌else◌, get_or, set,
}
use v8malloc.Words.{wrap64, sub64, invert, bits_and}
use v8malloc.HugeSlab.{HugeSlab, slabs_per_huge_max, is_full, is_empty}
use v8malloc.HugeSlab
use v8malloc.PageSource.{PageSource}

-- V8M_HUGE_PAGE_SIZE where a huge page has 2 MiB.
abbrev pub huge_page_size : ℕ
huge_page_size = 2097152

-- V8M_NUMA_MAX_NODES
abbrev pub max_nodes : ℕ
max_nodes = 64

pub record Node : Type 0 where
  pub partials : List HugeSlab
  pub fulls : List HugeSlab
  pub numa_node : ℕ
  pub huge_pages_alive : ℕ
  pub huge_pages_allocated : ℕ
  pub huge_pages_released : ℕ
  pub slab_carve_calls : ℕ
  pub slab_release_calls : ℕ

abbrev pub empty_node : ℕ → Node
empty_node i = record {
  partials = [];
  fulls = [];
  numa_node = i;
  huge_pages_alive = 0;
  huge_pages_allocated = 0;
  huge_pages_released = 0;
  slab_carve_calls = 0;
  slab_release_calls = 0;
}

-- The nodes from `i` on, `k` of them.
unfoldable pub nodes_from : ℕ → ℕ → List Node
nodes_from zero i = []
nodes_from (suc k) i = empty_node i ∷ nodes_from k (suc i)

unfoldable pub init : List Node
init = nodes_from max_nodes 0

-- The list without the first descriptor with this base.
unfoldable pub list_unlink : List HugeSlab → ℕ → List HugeSlab
list_unlink [] base = []
list_unlink (d ∷ rest) base =
    let later = list_unlink rest base in if d.base == base then rest else d ∷ later

-- A write to the descriptor, wherever it is linked.
unfoldable pub write_back : List HugeSlab → HugeSlab → List HugeSlab
write_back [] d = []
write_back (e ∷ rest) d =
    let later = write_back rest d in if e.base == d.base then d ∷ later else e ∷ later

abbrev pub after : HugeSlab → Option HugeSlab → HugeSlab
after d none = d
after d (some d') = d'

-- The carve from the head of the partial list, and the move of a page that it has filled.
unfoldable pub carve_head : Node → Node × ℕ
carve_head node = elim node.partials [
  | [] ↦ (node, 0)
  | d ∷ rest ↦
      (let (changed, carved) = HugeSlab.alloc (some d) in
        let d' = after d changed in
        let counted : Node = record node {
          partials = d' ∷ rest;
          slab_carve_calls = wrap64 (node.slab_carve_calls + 1);
        } in
        let moved : Node = record counted {
          partials = list_unlink (d' ∷ rest) d'.base;
          fulls = d' ∷ node.fulls;
        } in
        if carved == 0 then (node, 0) else (if is_full (some d') then moved else counted, carved))
]

-- The base of the huge page around an address.
unfoldable pub huge_base : ℕ → ℕ
huge_base slab = bits_and 64 slab (invert 64 (huge_page_size - 1))

unfoldable pub find_base : List HugeSlab → ℕ → Option HugeSlab
find_base [] base = none
find_base (d ∷ rest) base =
    let later = find_base rest base in if d.base == base then some d else later

unfoldable pub find_owning : Node → ℕ → Option HugeSlab
find_owning node slab = elim (find_base node.partials (huge_base slab)) [
  | some d ↦ some d
  | none ↦ find_base node.fulls (huge_base slab)
]

-- The memory of the descriptors: `desc_alloc` may fail.
pub record DescSource (Heap : Type 0) : Type 0 where
  pub desc_alloc : Heap → Heap × Bool
  pub desc_free : Heap → Heap

module _ {Heap : Type 0} (os : PageSource Heap) (descs : DescSource Heap) where
  -- Whether there is a new huge page; then it is the head of the partial list.
  unfoldable pub add_huge_page : Heap → Node → Heap × Node × Bool
  add_huge_page heap node =
      let (heap', base) = os.page_heap_alloc heap huge_page_size huge_page_size in
      let (heap'', mapped) = descs.desc_alloc heap' in
      let fresh : HugeSlab = record {
        base = 0;
        bitmap = 0;
        numa_node = 0;
        slabs_per_huge = 0;
        next = 0;
      } in
      let slab = after fresh (HugeSlab.init (some fresh) base node.numa_node slabs_per_huge_max) in
      if base == 0
      then (heap', node, false)
      else if not mapped
      then (os.page_heap_free heap'' base huge_page_size, node, false)
      else (
        heap'',
        record node {
          partials = slab ∷ node.partials;
          huge_pages_alive = wrap64 (node.huge_pages_alive + 1);
          huge_pages_allocated = wrap64 (node.huge_pages_allocated + 1);
        },
        true,
      )

  unfoldable pub carve_node : Heap → Node → Heap × Node × ℕ
  carve_node heap node = elim node.partials [
    | [] ↦
        (let (heap', node', added) = add_huge_page heap node in
          let (carved_node, carved) = carve_head node' in
          if added then (heap', carved_node, carved) else (heap', node', 0))
    | d ∷ rest ↦ (let (carved_node, carved) = carve_head node in (heap, carved_node, carved))
  ]

  unfoldable pub carve_slab : Heap → List Node → ℕ → Heap × List Node × ℕ
  carve_slab heap pool numa_node =
      let (heap', node', carved) = carve_node heap (get_or pool numa_node (empty_node 0)) in
      if leb max_nodes numa_node then (heap, pool, 0) else (heap', set pool numa_node node', carved)

  -- The release of a slab of a descriptor that the node holds.
  unfoldable pub release_from : Heap → Node → HugeSlab → ℕ → Heap × Node × Bool
  release_from heap node d slab =
      let (changed, released) = HugeSlab.free (some d) slab in
      let d' = after d changed in
      let wrote : Node = record node {
        partials = write_back node.partials d';
        fulls = write_back node.fulls d';
        slab_release_calls = wrap64 (node.slab_release_calls + 1);
      } in
      let moved : Node =
        if is_full (some d)
        then record wrote { partials = d' ∷ wrote.partials; fulls = list_unlink wrote.fulls d.base }
        else wrote in
      if not released
      then (heap, node, false)
      else if is_empty (some d')
      then (
        os.page_heap_free (descs.desc_free heap) d.base huge_page_size,
        record moved {
          partials = list_unlink moved.partials d.base;
          huge_pages_alive = sub64 moved.huge_pages_alive 1;
          huge_pages_released = wrap64 (moved.huge_pages_released + 1);
        },
        true,
      )
      else (heap, moved, true)

  -- The first node that owns the slab releases it.
  unfoldable pub release_nodes : Heap → List Node → ℕ → Heap × List Node × Bool
  release_nodes heap [] slab = (heap, [], false)
  release_nodes heap (node ∷ rest) slab =
      let later = release_nodes heap rest slab in
      elim (find_owning node slab) [
        | none ↦ (later.0, node ∷ later.1, later.2)
        | some d ↦ (let r = release_from heap node d slab in (r.0, r.1 ∷ rest, r.2))
      ]

  unfoldable pub release_slab : Heap → List Node → ℕ → Heap × List Node × Bool
  release_slab heap pool slab =
      if slab == 0 then (heap, pool, false) else release_nodes heap pool slab

  unfoldable pub destroy_list : Heap → List HugeSlab → Heap
  destroy_list heap [] = heap
  destroy_list heap (d ∷ rest) =
      let freed = if d.base == 0 then heap else os.page_heap_free heap d.base huge_page_size in
      destroy_list (descs.desc_free freed) rest

  -- Every list is given back; the pool is zero afterwards.
  unfoldable pub destroy : Heap → List Node → Heap
  destroy heap [] = heap
  destroy heap (node ∷ rest) =
      destroy (destroy_list (destroy_list heap node.partials) node.fulls) rest

unfoldable pub list_owns : List HugeSlab → ℕ → Bool
list_owns [] addr = false
list_owns (d ∷ rest) addr =
    (leb d.base addr && ltb addr (wrap64 (d.base + huge_page_size))) || list_owns rest addr

unfoldable pub owns : List Node → ℕ → Bool
owns [] addr = false
owns (node ∷ rest) addr =
    not (addr == 0) && (list_owns node.partials addr || list_owns node.fulls addr) || owns rest addr
