-- ===== src/NumaPool/Laws/Release/Change.antt =====
-- The page of a released slab, and the exchange of it for the changed page.
use v8malloc.Prelude.{
  ℕ, ◌+◌, ◌*◌, ◌<◌, ◌≡◌, ◌≢◌, ◌⊎◌, refl, sym, ap, ◌∙◌, inl, inr, true, false, some, subst,
}
use v8malloc.Words.{test_bit}
use v8malloc.HugeSlab.{HugeSlab, page_size, is_full, is_empty}
use v8malloc.NumaPool.{Node}
use v8malloc.NumaPool.Lists.{one_of_base, same_base}
use v8malloc.NumaPool.Slots.{
  IsCarved, cleared, cleared-IsPage, cleared-open, empty-clear, carved_base, carved_clear, of_clear,
  clash,
}
use v8malloc.NumaPool.Laws.{Holds, IsHeld, IsNode, held_by, Carved}

module _ {Heap : Type 0} (IsOut : Heap → ℕ → Type 0) where
  -- The slab at `a` is not carved any more, and nothing else has changed.
  pub record IsReleased (heap : Heap) (node node' : Node) (a : ℕ) : Type 0 where
    pub listed : IsNode IsOut heap node'
    pub gone : Carved node' a → ⊥
    pub keeps : (y : ℕ) → y ≢ a → Carved node y → Carved node' y
    pub only : (y : ℕ) → Carved node' y → Carved node y
    pub bases :
        (e : HugeSlab)
        → Holds node'.partials node'.fulls e
        → (d : HugeSlab) × Holds node.partials node.fulls d × (d.base ≡ e.base)

  module _ (heap : Heap) (node : Node) (d : HugeSlab) (v : IsNode IsOut heap node)
      (h : Holds node.partials node.fulls d) (i : ℕ) (below : i < d.slabs_per_huge)
      (bit_set : test_bit d.bitmap i ≡ true) where
    abbrev changed : HugeSlab
    changed = cleared d i

    abbrev address : ℕ
    address = d.base + i * page_size

    abbrev here : IsCarved d address
    here = record { slot = i; inside = below; set_there = bit_set; place = refl }

    pub held : IsHeld IsOut heap d
    held = held_by IsOut heap node.partials node.fulls d v h

    pub changed_held : IsHeld IsOut heap changed
    changed_held = (cleared-IsPage held.0 i, held.1)

    unique : (e : HugeSlab) → Holds node.partials node.fulls e → e.base ≡ d.base → e ≡ d
    unique e k s = elim k [
      | inl p ↦ elim h [
        | inl q ↦ one_of_base node.partials e d v.distinct p q s
        | inr q ↦ absurd (v.across e d p q s)
      ]
      | inr p ↦ elim h [
        | inl q ↦ absurd (v.across d e q p (sym s))
        | inr q ↦ one_of_base node.fulls e d v.distinct_fulls p q s
      ]
    ]

    -- Where the page is exchanged for the changed page, or taken away because it is empty.
    pub exchange :
        (heap' : Heap) (node' : Node)
        → IsNode IsOut heap' node'
        → ((e : HugeSlab)
            → Holds node'.partials node'.fulls e
            → (e ≡ changed) ⊎ (Holds node.partials node.fulls e × (e.base ≢ d.base)))
        → ((e : HugeSlab)
            → Holds node.partials node.fulls e
            → e.base ≢ d.base
            → Holds node'.partials node'.fulls e)
        → ((y : ℕ) → IsCarved changed y → Carved node' y)
        → IsReleased heap' node node' address
    exchange heap' node' v' out into new = record {
      listed = v';
      gone = λ (e, k, c). elim (out e k) [
        | inl same ↦ (of_clear d i address (subst (λ x. IsCarved x address) same c)).1 refl
        | inr (old, n) ↦ n (
            carved_base e d address (held_by IsOut heap node.partials node.fulls e v old).0 held.0 c
              here)
      ];
      keeps = λ y n (e, k, c). elim (same_base e.base d.base) [
        | inl s ↦ new y (carved_clear d i y n (subst (λ x. IsCarved x y) (unique e k s) c))
        | inr other ↦ (e, into e k other, c)
      ];
      only = λ y (e, k, c). elim (out e k) [
        | inl same ↦ (d, h, (of_clear d i y (subst (λ x. IsCarved x y) same c)).0)
        | inr (old, n) ↦ (e, old, c)
      ];
      bases = λ e k. elim (out e k) [
        | inl same ↦ (d, h, sym (ap HugeSlab.base same))
        | inr (old, n) ↦ (e, old, refl)
      ];
    }

    -- An empty page has no carved slab.
    pub not_empty : is_empty (some changed) ≡ true → (y : ℕ) → IsCarved changed y → ⊥
    not_empty e y c = clash (sym c.set_there ∙ empty-clear changed_held.0 e c.slot c.inside)

    pub changed_open : is_full (some changed) ≡ false
    changed_open = cleared-open held.0 i below
