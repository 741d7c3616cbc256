-- ===== src/NumaPool/Laws/Release.antt =====
-- A release gives back one carved slab.
pub mod Change
use v8malloc.Prelude.{
  ℕ, ◌+◌, ◌*◌, ◌<◌, ◌≡◌, ◌≢◌, ◌⊎◌, refl, sym, ap, ◌∙◌, inl, inr, Bool, true, false, some, List, [],
  ◌∷◌, subst, subst₂, Bool-cases,
}
use v8malloc.Words.{test_bit, wrap64, sub64}
use v8malloc.HugeSlab.{HugeSlab, page_size, is_full, is_empty, free}
use v8malloc.PageSource.{PageSource, IsPageSource}
use v8malloc.NumaPool.{
  Node, list_unlink, write_back, find_owning, find_base, huge_base, release_from, DescSource,
  huge_page_size,
}
use v8malloc.NumaPool.Lists.{
  Has, Lacks, of_unlink, in_unlink, unlink-Lacks, of_write, in_write, written, write-Lacks,
  unlink_written, unlink_here, find_base-Has, find_base-Lacks, one_of_base, same_base,
}
use v8malloc.NumaPool.Slots.{
  IsPage, IsCarved, cleared, cleared-IsPage, cleared-open, frees_slot, empty-clear, huge_base-slot,
  carved_base, carved_clear, of_clear, clash,
}
use v8malloc.NumaPool.Laws.{
  Holds, IsHeld, IsListed, IsNode, held_by, unlink_partial, unlink_full, push_partial,
  write_partial, move_heap, IsDescSource, Carved,
}
use v8malloc.NumaPool.Laws.Release.Change.{IsReleased}
use v8malloc.NumaPool.Laws.Release.Change

module _ {Heap : Type 0} (IsOut : Heap → ℕ → Type 0) where
  module _ (heap : Heap) (node : Node) (d : HugeSlab) (v : IsNode IsOut heap node)
      (h : Holds node.partials node.fulls d) (i : ℕ) (below : i < d.slabs_per_huge)
      (bit_set : test_bit d.bitmap i ≡ true) where
    abbrev changed : HugeSlab
    changed = cleared d i

    abbrev address : ℕ
    address = d.base + i * page_size

    changed_held : IsHeld IsOut heap changed
    changed_held = Change.changed_held IsOut heap node d v h i below bit_set

    changed_open : is_full (some changed) ≡ false
    changed_open = Change.changed_open IsOut heap node d v h i below bit_set

    abbrev page : IsPage d
    page = (held_by IsOut heap node.partials node.fulls d v h).0

    abbrev open_node : Node
    open_node = record node {
      partials = write_back node.partials changed;
      fulls = write_back node.fulls changed;
      slab_release_calls = wrap64 (node.slab_release_calls + 1);
    }

    abbrev closed_node : Node
    closed_node = record open_node {
      partials = changed ∷ write_back node.partials changed;
      fulls = list_unlink (write_back node.fulls changed) d.base;
    }

    abbrev dropped : Node → Node
    dropped n = record n {
      partials = list_unlink n.partials d.base;
      huge_pages_alive = sub64 n.huge_pages_alive 1;
      huge_pages_released = wrap64 (n.huge_pages_released + 1);
    }

    -- The page is on the partial list.
    module _ (p : Has d node.partials) where
      Lacks-full : Lacks node.fulls d.base
      Lacks-full e k s = v.across d e p k (sym s)

      same_fulls : write_back node.fulls changed ≡ node.fulls
      same_fulls = write-Lacks changed node.fulls Lacks-full

      written_lem : IsReleased IsOut heap node open_node address
      written_lem =
          Change.exchange IsOut heap node d v h i below bit_set heap open_node
            (subst (IsListed IsOut heap (write_back node.partials changed)) (sym same_fulls) (
              write_partial IsOut heap node.partials node.fulls changed v changed_held changed_open
                Lacks-full))
            (λ e k. elim k [
              | inl q ↦ elim (of_write changed node.partials e q) [
                | inl new ↦ inl new
                | inr (old, n) ↦ inr (inl old, n)
              ]
              | inr q ↦ (let q' = subst (Has e) same_fulls q in inr (inr q', Lacks-full e q'))
            ])
            (λ e k n. elim k [
              | inl q ↦ inl (in_write changed node.partials e q n)
              | inr q ↦ inr (in_write changed node.fulls e q n)
            ])
            (λ y c. (changed, inl (written changed node.partials d p refl), c))

      emptied_lem :
          (heap' : Heap)
          → ((e : HugeSlab) → IsOut heap e.base → e.base ≢ d.base → IsOut heap' e.base)
          → is_empty (some changed) ≡ true
          → IsReleased IsOut heap' node (dropped open_node) address
      emptied_lem heap' outs empty =
          let list = unlink_written changed node.partials v.distinct in
          let gone = unlink-Lacks d.base node.partials v.distinct in
          Change.exchange IsOut heap node d v h i below bit_set heap' (dropped open_node)
            (subst₂ (IsListed IsOut heap') (sym list) (sym same_fulls) (
              move_heap IsOut heap heap' (list_unlink node.partials d.base) node.fulls
                (unlink_partial IsOut heap node.partials node.fulls d.base v)
                (λ e k o. outs e o (elim k [ inl q ↦ gone e q | inr q ↦ Lacks-full e q ]))))
            (λ e k. elim k [
              | inl q ↦
                  (let q' = subst (Has e) list q in
                    inr (inl (of_unlink d.base node.partials e q'), gone e q'))
              | inr q ↦ (let q' = subst (Has e) same_fulls q in inr (inr q', Lacks-full e q'))
            ])
            (λ e k n. elim k [
              | inl q ↦ inl (subst (Has e) (sym list) (in_unlink d.base node.partials e q n))
              | inr q ↦ inr (in_write changed node.fulls e q n)
            ])
            (λ y c. absurd (Change.not_empty IsOut heap node d v h i below bit_set empty y c))

    -- The page is on the full list.
    module _ (p : Has d node.fulls) where
      Lacks-partial : Lacks node.partials d.base
      Lacks-partial e k = v.across e d k p

      same_partials : write_back node.partials changed ≡ node.partials
      same_partials = write-Lacks changed node.partials Lacks-partial

      full_list : list_unlink (write_back node.fulls changed) d.base ≡ list_unlink node.fulls d.base
      full_list = unlink_written changed node.fulls v.distinct_fulls

      gone_full : Lacks (list_unlink node.fulls d.base) d.base
      gone_full = unlink-Lacks d.base node.fulls v.distinct_fulls

      of_full :
          (e : HugeSlab)
          → Has e (list_unlink (write_back node.fulls changed) d.base)
          → Has e node.fulls × (e.base ≢ d.base)
      of_full e q =
          let q' = subst (Has e) full_list q in (of_unlink d.base node.fulls e q', gone_full e q')

      into_full :
          (e : HugeSlab)
          → Has e node.fulls
          → e.base ≢ d.base
          → Has e (list_unlink (write_back node.fulls changed) d.base)
      into_full e q n = subst (Has e) (sym full_list) (in_unlink d.base node.fulls e q n)

      moved_lem : IsReleased IsOut heap node closed_node address
      moved_lem =
          Change.exchange IsOut heap node d v h i below bit_set heap closed_node
            (subst₂ (λ l m. IsListed IsOut heap (changed ∷ l) m) (sym same_partials) (sym full_list)
              (push_partial IsOut heap node.partials (list_unlink node.fulls d.base) changed
                (unlink_full IsOut heap node.partials node.fulls d.base v) changed_held changed_open
                Lacks-partial gone_full))
            (λ e k. elim k [
              | inl q ↦ elim q [
                | inl new ↦ inl new
                | inr old ↦
                    (let old' = subst (Has e) same_partials old in
                      inr (inl old', Lacks-partial e old'))
              ]
              | inr q ↦ (let (old, n) = of_full e q in inr (inr old, n))
            ])
            (λ e k n. elim k [
              | inl q ↦ inl (inr (in_write changed node.partials e q n))
              | inr q ↦ inr (into_full e q n)
            ])
            (λ y c. (changed, inl (inl refl), c))

      only_lem :
          (heap' : Heap)
          → ((e : HugeSlab) → IsOut heap e.base → e.base ≢ d.base → IsOut heap' e.base)
          → is_empty (some changed) ≡ true
          → IsReleased IsOut heap' node (dropped closed_node) address
      only_lem heap' outs empty =
          let list =
            unlink_here changed (write_back node.partials changed) d.base refl ∙ same_partials in
          Change.exchange IsOut heap node d v h i below bit_set heap' (dropped closed_node)
            (subst₂ (IsListed IsOut heap') (sym list) (sym full_list) (
              move_heap IsOut heap heap' node.partials (list_unlink node.fulls d.base)
                (unlink_full IsOut heap node.partials node.fulls d.base v)
                (λ e k o. outs e o (elim k [ inl q ↦ Lacks-partial e q | inr q ↦ gone_full e q ]))))
            (λ e k. elim k [
              | inl q ↦ (let q' = subst (Has e) list q in inr (inl q', Lacks-partial e q'))
              | inr q ↦ (let (old, n) = of_full e q in inr (inr old, n))
            ])
            (λ e k n. elim k [
              | inl q ↦ inl (subst (Has e) (sym list) q)
              | inr q ↦ inr (into_full e q n)
            ])
            (λ y c. absurd (Change.not_empty IsOut heap node d v h i below bit_set empty y c))

    released_lem :
        (os : PageSource Heap) (descs : DescSource Heap)
        → IsPageSource os huge_page_size IsOut
        → IsDescSource IsOut descs
        → let r = release_from os descs heap node d address in
          (r.2 ≡ true) × IsReleased IsOut r.0 node r.1 address
    unfolding release_from
    released_lem os descs promise desc_promise =
        let outs = λ (e : HugeSlab) (o : IsOut heap e.base) (n : e.base ≢ d.base).
          promise.free_keeps (descs.desc_free heap) d.base e.base (λ s. n (sym s))
            (desc_promise.free_out heap e.base o) in
        let accepted = frees_slot page i below bit_set in
        elim h [
          | inl p ↦
              (let open' = (v.partials d p).1 in
                elim (Bool-cases (is_empty (some changed))) [
                  | inl e ↦ rw (accepted, open', e) (refl, emptied_lem p _ outs e)
                  | inr e ↦ rw (accepted, open', e) (refl, written_lem p)
                ])
          | inr p ↦
              (let closed = (v.fulls d p).1 in
                elim (Bool-cases (is_empty (some changed))) [
                  | inl e ↦ rw (accepted, closed, e) (refl, only_lem p _ outs e)
                  | inr e ↦ rw (accepted, closed, e) (refl, moved_lem p)
                ])
        ]

    owning_lem : find_owning node address ≡ some d
    unfolding find_owning
    owning_lem =
        let base = huge_base-slot page i below in
        elim h [
          | inl p ↦ rw (base, find_base-Has node.partials d v.distinct p, find_owning) refl
          | inr p ↦
              rw (base, find_base-Lacks node.partials d.base (λ e k. v.across e d k p), find_owning)
                (ap (find_base node.fulls) base ∙ find_base-Has node.fulls d v.distinct_fulls p)
        ]

-- The release of a slab that a node in its invariant has carved: the node finds the descriptor of the huge
-- page and accepts; the invariant is kept, the slab is not carved any more, and every other slab of the node
-- stays carved or not carved.
pub node_releases_slab :
    {Heap : Type 0} (IsOut : Heap → ℕ → Type 0) (os : PageSource Heap) (descs : DescSource Heap)
    (heap : Heap) (node : Node) (a : ℕ)
    → IsPageSource os huge_page_size IsOut
    → IsDescSource IsOut descs
    → IsNode IsOut heap node
    → Carved node a
    → (d : HugeSlab) × Holds node.partials node.fulls d
      × (find_owning node a ≡ some d)
      × (let r = release_from os descs heap node d a in
          (r.2 ≡ true) × IsReleased IsOut r.0 node r.1 a)
node_releases_slab IsOut os descs heap node a promise desc_promise v (d, h, c) =
    let address = sym c.place in
    (
      d,
      h,
      subst (λ x. find_owning node x ≡ some d) address
          (owning_lem IsOut heap node d v h c.slot c.inside c.set_there),
      subst
          (λ x.
            let r = release_from os descs heap node d x in
            (r.2 ≡ true) × IsReleased IsOut r.0 node r.1 x)
          address
          (released_lem IsOut heap node d v h c.slot c.inside c.set_there os descs promise
            desc_promise),
    )
