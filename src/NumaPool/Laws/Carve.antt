-- ===== src/NumaPool/Laws/Carve.antt =====
-- A carve hands out a slab that was not carved.
pub mod Head
use v8malloc.Prelude.{
  ℕ, suc, ◌+◌, ◌*◌, ◌^◌, ◌%◌, ◌≤◌, ◌<◌, ◌≡◌, ◌≢◌, ◌⊎◌, refl, sym, ap, ◌∙◌, inl, inr, Bool, true,
  false, some, List, [], ◌∷◌, ◌==◌, arith, subst, Bool-cases, List-cases, eq→==, ne→==,
}
use v8malloc.Words.{wrap64, bits_and, test_bit}
use v8malloc.Words.Bits
use v8malloc.HugeSlab.{
  HugeSlab, page_size, is_full, valid_mask, alloc, free_index, slabs_per_huge_max, init,
}
use v8malloc.HugeSlab.Laws.{IsValid, alloc_free_slot, free_index-lt-slots, free_index-free}
use v8malloc.PageSource.{PageSource, IsPageSource}
use v8malloc.NumaPool.{
  Node, list_unlink, carve_head, carve_node, add_huge_page, DescSource, huge_page_size,
}
use v8malloc.NumaPool.Lists.{Has, Lacks, Distinct, unlink_here}
use v8malloc.NumaPool.Slots.{
  IsPage, IsCarved, marked, marked-IsPage, carved_base, carved_mark, of_mark, not_carved, clash,
}
use v8malloc.NumaPool.Laws.{
  Holds, IsHeld, IsListed, IsNode, held_by, push_partial, push_full, move_heap, IsDescSource,
  Carved,
}
use v8malloc.NumaPool.Laws.Carve.Head.{IsServed, carve_head_lem}

module _ {Heap : Type 0} (IsOut : Heap → ℕ → Type 0) where
  -- How a carve of a node ends.
  abbrev pub Outcome : Heap → Node → Heap × Node × ℕ → Type 0
  Outcome heap node r =
      ((r.2 ≡ 0) × (r.1 ≡ node) × IsNode IsOut r.0 node)
      ⊎ ((r.2 ≢ 0) × IsServed IsOut r.0 node r.1 r.2)

  module _ (os : PageSource Heap) (descs : DescSource Heap)
      (promise : IsPageSource os huge_page_size IsOut) (desc_promise : IsDescSource IsOut descs)
      (heap : Heap) (node : Node) (v : IsListed IsOut heap [] node.fulls) where
    abbrev bare : Node
    bare = record node { partials = [] }

    abbrev region : Heap × ℕ
    region = os.page_heap_alloc heap huge_page_size huge_page_size

    abbrev mapped : Heap × Bool
    mapped = descs.desc_alloc region.0

    after_region : IsListed IsOut region.0 [] node.fulls
    after_region =
        move_heap IsOut heap region.0 [] node.fulls v (λ d h o. promise.alloc_keeps heap d.base o)

    after_mapped : IsListed IsOut mapped.0 [] node.fulls
    after_mapped =
        move_heap IsOut region.0 mapped.0 [] node.fulls after_region
          (λ d h o. desc_promise.alloc_out region.0 d.base o)

    module _ (some_region : 0 < region.1) where
      new_base : (d : HugeSlab) → Holds [] node.fulls d → d.base ≢ region.1
      new_base d h e =
          let held = held_by IsOut heap [] node.fulls d v h in
          elim ((promise.fresh heap some_region).3 d.base held.1) [
            | inl before ↦ omega arith
            | inr after ↦ omega arith
          ]

      given_back : IsListed IsOut (os.page_heap_free mapped.0 region.1 huge_page_size) [] node.fulls
      given_back =
          move_heap IsOut mapped.0 (os.page_heap_free mapped.0 region.1 huge_page_size) []
            node.fulls after_mapped
            (λ d h o. promise.free_keeps mapped.0 region.1 d.base (λ e. new_base d h (sym e)) o)

      abbrev fresh_page : HugeSlab
      fresh_page = record {
        base = region.1;
        bitmap = 0;
        numa_node = node.numa_node;
        slabs_per_huge = 32;
        next = 0;
      }

      grown : IsListed IsOut mapped.0 (fresh_page ∷ []) node.fulls
      unfolding is_full valid_mask bits_and
      grown =
          let f = promise.fresh heap some_region in
          push_partial IsOut mapped.0 [] node.fulls fresh_page after_mapped
            (
              record {
                valid = record {
                  based = some_region;
                  room = omega (arith, f.1);
                  some_slots = omega arith;
                  slots = omega arith;
                  bits = omega arith;
                };
                border = f.2;
              },
              desc_promise.alloc_out region.0 region.1 f.0,
            )
            refl (λ e h. elim h [ ]) (λ e h. new_base e (inr h))

      abbrev extended : Node
      extended = record node {
        partials = fresh_page ∷ [];
        huge_pages_alive = wrap64 (node.huge_pages_alive + 1);
        huge_pages_allocated = wrap64 (node.huge_pages_allocated + 1);
      }

      -- The new page has no carved slab.
      blank : (y : ℕ) → IsCarved fresh_page y → ⊥
      blank y c = clash (sym c.set_there ∙ Bits.test_bit-zero c.slot)

      from_new :
          (r : Node) (a : ℕ)
          → IsServed IsOut mapped.0 extended r a
          → IsServed IsOut mapped.0 bare r a
      from_new r a s = record {
        listed = s.listed;
        new = s.new;
        was_free = λ (d, h, c). s.was_free (d, still_full d h, c);
        keeps = λ y (d, h, c). s.keeps y (d, still_full d h, c);
        only = λ y c. elim (s.only y c) [
          | inl here ↦ inl here
          | inr (d, h, k) ↦ elim h [
            | inl p ↦ elim p [
              | inl new ↦ absurd (blank y (subst (λ x. IsCarved x y) new k))
              | inr none_left ↦ absurd none_left
            ]
            | inr full ↦ inr (d, inr full, k)
          ]
        ];
      }
        where
          still_full : (d : HugeSlab) → Holds [] node.fulls d → Holds (fresh_page ∷ []) node.fulls d
          still_full d (inl nowhere) = absurd nowhere
          still_full d (inr full) = inr full

    added_lem : Outcome heap bare (carve_node os descs heap bare)
    unfolding carve_node add_huge_page init
    added_lem = elim (Bool-cases (region.1 == 0)) [
      | inl z ↦ rw z (inl (refl, refl, after_region))
      | inr nz ↦
          (let some_region : 0 < region.1 = ground arith in
            elim (Bool-cases mapped.1) [
              | inl ok ↦
                  rw (nz, ok)
                    (let r =
                        carve_head_lem IsOut mapped.0 (extended some_region)
                          (fresh_page some_region) [] (grown some_region) in
                      inr (r.0, from_new some_region _ _ r.1))
              | inr failed ↦ rw (nz, failed) (inl (refl, refl, given_back some_region))
            ])
    ]

  held_lem :
      (os : PageSource Heap) (descs : DescSource Heap) (heap : Heap) (node : Node) (d : HugeSlab)
      (rest : List HugeSlab)
      → IsListed IsOut heap (d ∷ rest) node.fulls
      → let n = record node { partials = d ∷ rest } in Outcome heap n (carve_node os descs heap n)
  unfolding carve_node
  held_lem os descs heap node d rest v = inr (carve_head_lem IsOut heap node d rest v)

-- `v8m_numa_pool_carve_slab` on a node in its invariant keeps the invariant. It returns NULL and the node
-- stays as it is, or it returns the address of a slab that was not carved, which is carved afterwards, and
-- nothing else changes.
pub carves_free_slab :
    {Heap : Type 0} (IsOut : Heap → ℕ → Type 0) (os : PageSource Heap) (descs : DescSource Heap)
    (heap : Heap) (node : Node)
    → IsPageSource os huge_page_size IsOut
    → IsDescSource IsOut descs
    → IsNode IsOut heap node
    → Outcome IsOut heap node (carve_node os descs heap node)
carves_free_slab IsOut os descs heap node promise desc_promise v = elim (List-cases node.partials) [
  | inl e ↦
      subst (λ n. Outcome IsOut heap n (carve_node os descs heap n))
        (ap (λ (l : List HugeSlab). record node { partials = l }) (sym e))
        (added_lem IsOut os descs promise desc_promise heap node
          (subst (λ l. IsListed IsOut heap l node.fulls) e v))
  | inr (d, rest, e) ↦
      subst (λ n. Outcome IsOut heap n (carve_node os descs heap n))
        (ap (λ (l : List HugeSlab). record node { partials = l }) (sym e))
        (held_lem IsOut os descs heap node d rest
          (subst (λ l. IsListed IsOut heap l node.fulls) e v))
]
