-- ===== src/Tests/NumaPools.antt =====
-- Runs of the pool of huge pages.
use v8malloc.Prelude.{
  ℕ, ◌+◌, ◌*◌, ◌%◌, ◌^◌, ◌<◌, ◌≡◌, refl, sym, subst, inl, inr, true, false, some, List, [], ◌∷◌,
  arith, ltb, if◌then◌else◌, Bool-cases,
}
use v8malloc.Words.{test_bit, bits_and, set_bit, invert, ctz}
use v8malloc.PageSource.{PageSource, IsPageSource, AreApart}
use v8malloc.HugeSlab.{HugeSlab, is_full, valid_mask, is_empty}
use v8malloc.HugeSlab
use v8malloc.NumaPool.{
  Node, carve_node, carve_head, empty_node, release_slab, DescSource, huge_page_size,
}
use v8malloc.NumaPool.Slots.{IsPage}
use v8malloc.NumaPool.Laws.{IsNode, IsDescSource, Carved}
use v8malloc.NumaPool.Laws.Carve.{Outcome, carves_free_slab}
use v8malloc.NumaPool.Laws.Pool.{AreNodes, IsPoolReleased, releases_one_slab}

-- The heap is the number of huge pages that it has handed out.
abbrev upward : PageSource ℕ
upward = record {
  page_heap_alloc =
      λ heap size alignment. if ltb heap (2 ^ 40) then (heap + 1, (heap + 1) * size) else (heap, 0);
  page_heap_free = λ heap region size. heap;
  advise_dont_need = λ heap region size. heap;
}

abbrev IsOut : ℕ → ℕ → Type 0
IsOut heap q = (k : ℕ) × (k < heap) × (q ≡ (k + 1) * huge_page_size)

upward_fresh :
    (heap : ℕ)
    → let r = upward.page_heap_alloc heap huge_page_size huge_page_size in
      (0 < r.1)
      → IsOut r.0 r.1
        × (r.1 + huge_page_size < 2 ^ 64)
        × (r.1 % huge_page_size ≡ 0)
        × ((q : ℕ) → IsOut heap q → AreApart huge_page_size r.1 q)
upward_fresh heap = elim (Bool-cases (ltb heap (2 ^ 40))) [
  | inl t ↦ rw t (λ pos.
      ((heap, omega arith, refl), ground arith, omega arith, λ q (k, below, e). inr (omega arith)))
  | inr f ↦ rw f (λ pos. absurd (omega arith))
]

upward_keeps :
    (heap q : ℕ)
    → IsOut heap q
    → IsOut (upward.page_heap_alloc heap huge_page_size huge_page_size).0 q
upward_keeps heap q (k, below, e) = elim (Bool-cases (ltb heap (2 ^ 40))) [
  | inl t ↦ rw t (k, omega arith, e)
  | inr f ↦ rw f (k, below, e)
]

upward-IsPageSource : IsPageSource upward huge_page_size IsOut
upward-IsPageSource = record {
  fresh = upward_fresh;
  alloc_keeps = upward_keeps;
  free_keeps = λ heap p q ne o. o;
  advise_keeps = λ heap p q o. o;
}

abbrev always : DescSource ℕ
always = record { desc_alloc = λ heap. (heap, true); desc_free = λ heap. heap }

always-IsDescSource : IsDescSource IsOut always
always-IsDescSource = record { alloc_out = λ heap q o. o; free_out = λ heap q o. o }

-- One huge page, whose first slab is carved.
abbrev one_slab : HugeSlab
one_slab = record { base = 2097152; bitmap = 1; numa_node = 0; slabs_per_huge = 32; next = 0 }

abbrev node : Node
node = record {
  partials = one_slab ∷ [];
  fulls = [];
  numa_node = 0;
  huge_pages_alive = 1;
  huge_pages_allocated = 1;
  huge_pages_released = 0;
  slab_carve_calls = 1;
  slab_release_calls = 0;
}

one_slab-IsPage : IsPage one_slab
one_slab-IsPage = record {
  valid = record {
    based = omega arith;
    room = omega arith;
    some_slots = omega arith;
    slots = omega arith;
    bits = omega arith;
  };
  border = refl;
}

one_slab_open : is_full (some one_slab) ≡ false
unfolding is_full valid_mask bits_and
one_slab_open = refl

node-IsNode : IsNode IsOut 1 node
node-IsNode = record {
  partials = λ d h. elim h [
    | inl here ↦
        subst (λ x. (IsPage x × IsOut 1 x.base) × (is_full (some x) ≡ false)) (sym here)
          ((one_slab-IsPage, (0, omega arith, refl)), one_slab_open)
    | inr none_left ↦ absurd none_left
  ];
  fulls = λ d h. elim h [ ];
  distinct = (λ e h. elim h [ ], tt);
  distinct_fulls = tt;
  across = λ d e h i. elim i [ ];
}

first_bit : test_bit 1 0 ≡ true
unfolding test_bit
first_bit = refl

node-Carved : Carved node 2097152
node-Carved = (
  one_slab,
  inl (inl refl),
  record { slot = 0; inside = omega arith; set_there = first_bit; place = refl },
)

carves_free_slab_example : Outcome IsOut 1 node (carve_node upward always 1 node)
carves_free_slab_example =
    carves_free_slab IsOut upward always 1 node upward-IsPageSource always-IsDescSource node-IsNode

-- The node of the slab is the second of the pool.
abbrev two_nodes : List Node
two_nodes = empty_node 0 ∷ node ∷ []

two_nodes-AreNodes : AreNodes IsOut 1 two_nodes
two_nodes-AreNodes = (
  record {
    partials = λ d h. elim h [ ];
    fulls = λ d h. elim h [ ];
    distinct = tt;
    distinct_fulls = tt;
    across = λ d e h i. elim h [ ];
  },
  (λ d e h i s. elim h [ inl p ↦ elim p [ ] | inr p ↦ elim p [ ] ]),
  (node-IsNode, (λ d e h i s. elim i [ ]), tt),
)

releases_one_slab_example :
    let r = release_slab upward always 1 two_nodes 2097152 in
    (r.2 ≡ true) × IsPoolReleased IsOut 1 r.0 two_nodes r.1 2097152
releases_one_slab_example =
    releases_one_slab IsOut upward always 1 two_nodes 2097152 upward-IsPageSource
      always-IsDescSource two_nodes-AreNodes (inr (inl node-Carved))

-- The second slab is carved next.
carve_run : (carve_node upward always 1 node).2 ≡ 2097152 + 65536
unfolding carve_node carve_head HugeSlab.alloc HugeSlab.free_index is_full valid_mask bits_and
    invert ctz set_bit
carve_run = refl
