-- ===== src/NumaPool/Laws/Carve/Head.antt =====
-- The carve from the head of the partial list.
use v8malloc.Prelude.{
  ℕ, ◌+◌, ◌*◌, ◌<◌, ◌≡◌, ◌≢◌, ◌⊎◌, refl, sym, inl, inr, true, false, some, List, ◌∷◌, ◌==◌, arith,
  subst, Bool-cases,
}
use v8malloc.Words.{wrap64}
use v8malloc.Words.Bits
use v8malloc.HugeSlab.{HugeSlab, page_size, is_full, free_index}
use v8malloc.HugeSlab.Laws.{alloc_free_slot, free_index-lt-slots, free_index-free}
use v8malloc.NumaPool.{Node, list_unlink, carve_head}
use v8malloc.NumaPool.Lists.{Lacks, unlink_here}
use v8malloc.NumaPool.Slots.{
  IsPage, IsCarved, marked, marked-IsPage, carved_base, carved_mark, of_mark, not_carved,
}
use v8malloc.NumaPool.Laws.{
  Holds, IsHeld, IsListed, IsNode, held_by, push_partial, push_full, Carved,
}

module _ {Heap : Type 0} (IsOut : Heap → ℕ → Type 0) where
  -- The slab at `a` is carved and was not before, and nothing else has changed.
  pub record IsServed (heap : Heap) (node node' : Node) (a : ℕ) : Type 0 where
    pub listed : IsNode IsOut heap node'
    pub new : Carved node' a
    pub was_free : Carved node a → ⊥
    pub keeps : (y : ℕ) → Carved node y → Carved node' y
    pub only : (y : ℕ) → Carved node' y → (y ≡ a) ⊎ Carved node y

  module _ (heap : Heap) (node : Node) (d : HugeSlab) (rest : List HugeSlab)
      (v : IsListed IsOut heap (d ∷ rest) node.fulls) where
    abbrev before : Node
    before = record node { partials = d ∷ rest }

    abbrev changed : HugeSlab
    changed = marked d (free_index d)

    abbrev address : ℕ
    address = d.base + free_index d * page_size

    page : IsPage d
    page = (v.partials d (inl refl)).0.0

    below : free_index d < d.slabs_per_huge
    below = free_index-lt-slots page.valid (v.partials d (inl refl)).1

    tail : IsListed IsOut heap rest node.fulls
    tail = record {
      partials = λ e h. v.partials e (inr h);
      fulls = v.fulls;
      distinct = v.distinct.1;
      distinct_fulls = v.distinct_fulls;
      across = λ e f h i. v.across e f (inr h) i;
    }

    lacks : Lacks node.fulls d.base
    lacks e h s = v.across d e (inl refl) h (sym s)

    held : IsHeld IsOut heap changed
    held = (marked-IsPage page (free_index d) below, (v.partials d (inl refl)).0.1)

    carved_here : IsCarved changed address
    carved_here = record {
      slot = free_index d;
      inside = below;
      set_there = Bits.test_bit-set_bit_self d.bitmap (free_index d);
      place = refl;
    }

    old_page : (e : HugeSlab) → Holds (d ∷ rest) node.fulls e → (e ≡ d) ⊎ Holds rest node.fulls e
    old_page e (inl (inl here)) = inl here
    old_page e (inl (inr there)) = inr (inl there)
    old_page e (inr full) = inr (inr full)

    still : (e : HugeSlab) → Holds rest node.fulls e → Holds (d ∷ rest) node.fulls e
    still e (inl there) = inl (inr there)
    still e (inr full) = inr full

    other_base : (e : HugeSlab) → Holds rest node.fulls e → e.base ≢ d.base
    other_base e (inl there) = v.distinct.0 e there
    other_base e (inr full) = lacks e full

    was_clear : Carved before address → ⊥
    was_clear (e, h, c) = elim (old_page e h) [
      | inl same ↦
          not_carved d (free_index d) (free_index-free page.valid (v.partials d (inl refl)).1)
            (subst (λ x. IsCarved x address) same c)
      | inr there ↦ other_base e there (
          carved_base e changed address (held_by IsOut heap rest node.fulls e tail there).0 held.0 c
            carved_here)
    ]

    -- Where the head of the list is exchanged for the changed page.
    exchange :
        (node' : Node)
        → IsNode IsOut heap node'
        → Holds node'.partials node'.fulls changed
        → ((e : HugeSlab) → Holds rest node.fulls e → Holds node'.partials node'.fulls e)
        → ((e : HugeSlab)
            → Holds node'.partials node'.fulls e
            → (e ≡ changed) ⊎ Holds rest node.fulls e)
        → IsServed heap before node' address
    exchange node' v' new into out = record {
      listed = v';
      new = (changed, new, carved_here);
      was_free = was_clear;
      keeps = λ y (e, h, c). elim (old_page e h) [
        | inl same ↦
            (changed, new, carved_mark d (free_index d) y (subst (λ x. IsCarved x y) same c))
        | inr there ↦ (e, into e there, c)
      ];
      only = λ y (e, h, c). elim (out e h) [
        | inl same ↦ elim (of_mark d (free_index d) y (subst (λ x. IsCarved x y) same c)) [
          | inl here ↦ inl here
          | inr old ↦ inr (d, inl (inl refl), old)
        ]
        | inr there ↦ inr (e, still e there, c)
      ];
    }

    head_open :
        is_full (some changed) ≡ false
        → IsServed heap before
            (record before {
              partials = changed ∷ rest;
              slab_carve_calls = wrap64 (node.slab_carve_calls + 1);
            })
            address
    head_open o =
        exchange _ (push_partial IsOut heap rest node.fulls changed tail held o v.distinct.0 lacks)
          (inl (inl refl)) (λ e h. elim h [ inl there ↦ inl (inr there) | inr full ↦ inr full ])
          (λ e h. elim h [
            | inl p ↦ elim p [ inl here ↦ inl here | inr there ↦ inr (inl there) ]
            | inr full ↦ inr (inr full)
          ])

    head_filled :
        is_full (some changed) ≡ true
        → IsServed heap before
            (record before {
              partials = rest;
              fulls = changed ∷ node.fulls;
              slab_carve_calls = wrap64 (node.slab_carve_calls + 1);
            })
            address
    head_filled o =
        exchange _ (push_full IsOut heap rest node.fulls changed tail held o v.distinct.0 lacks)
          (inr (inl refl)) (λ e h. elim h [ inl there ↦ inl there | inr full ↦ inr (inr full) ])
          (λ e h. elim h [
            | inl there ↦ inr (inl there)
            | inr f ↦ elim f [ inl here ↦ inl here | inr full ↦ inr (inr full) ]
          ])

    pub carve_head_lem :
        ((carve_head before).1 ≢ 0)
        × IsServed heap before (carve_head before).0 (carve_head before).1
    unfolding carve_head list_unlink
    carve_head_lem =
        let based = page.valid.based in
        let some_slab : (address == 0) ≡ false = ground arith in
        let unlinked = unlink_here changed rest d.base refl in
        elim (Bool-cases (is_full (some changed))) [
          | inl full ↦
              rw (alloc_free_slot page.valid (v.partials d (inl refl)).1, some_slab, full, unlinked)
                (λ z. omega arith, head_filled full)
          | inr open' ↦
              rw (alloc_free_slot page.valid (v.partials d (inl refl)).1, some_slab, open')
                (λ z. omega arith, head_open open')
        ]
