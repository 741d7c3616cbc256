-- ===== src/NumaPool/Laws/Pool.antt =====
-- `v8m_numa_pool_release_slab`: the search for the node of a slab, and the release there.
use v8malloc.Prelude.{
  ℕ, ◌≡◌, ◌≢◌, ◌⊎◌, refl, sym, ap, ◌∙◌, inl, inr, true, false, none, some, List, [], ◌∷◌, ◌==◌,
  arith, Bool-cases, ne→==,
}
use v8malloc.HugeSlab.{HugeSlab, is_empty, free}
use v8malloc.PageSource.{PageSource, IsPageSource}
use v8malloc.NumaPool.{
  Node, after, find_base, find_owning, huge_base, release_from, release_nodes, release_slab,
  DescSource, huge_page_size,
}
use v8malloc.NumaPool.Lists.{find_base-Lacks}
use v8malloc.NumaPool.Slots.{IsPage, IsCarved, carved_base, huge_base-slot}
use v8malloc.NumaPool.Laws.{Holds, IsNode, held_by, move_heap, IsDescSource, Carved}
use v8malloc.NumaPool.Laws.Release.{node_releases_slab}
use v8malloc.NumaPool.Laws.Release.Change.{IsReleased}

-- A page of some node, and a slab that is carved in some node.
abbrev pub HeldIn : List Node → HugeSlab → Type 0
HeldIn [] d = ⊥
HeldIn (n ∷ rest) d = Holds n.partials n.fulls d ⊎ HeldIn rest d

abbrev pub CarvedIn : List Node → ℕ → Type 0
CarvedIn [] a = ⊥
CarvedIn (n ∷ rest) a = Carved n a ⊎ CarvedIn rest a

module _ {Heap : Type 0} (IsOut : Heap → ℕ → Type 0) where
  -- Every node keeps its invariant, and no page is held by two nodes.
  abbrev pub AreNodes : Heap → List Node → Type 0
  AreNodes heap [] = Unit {0}
  AreNodes heap (n ∷ rest) =
      IsNode IsOut heap n
      × ((d e : HugeSlab) → Holds n.partials n.fulls d → HeldIn rest e → d.base ≢ e.base)
      × AreNodes heap rest

  -- The slab at `a` is not carved any more, and nothing else has changed in the pool.
  pub record IsPoolReleased (heap heap' : Heap) (l l' : List Node) (a : ℕ) : Type 0 where
    pub nodes : AreNodes heap' l'
    pub gone : CarvedIn l' a → ⊥
    pub keeps : (y : ℕ) → y ≢ a → CarvedIn l y → CarvedIn l' y
    pub only : (y : ℕ) → CarvedIn l' y → CarvedIn l y
    pub bases : (e : HugeSlab) → HeldIn l' e → (d : HugeSlab) × HeldIn l d × (d.base ≡ e.base)
    pub outs : (q : ℕ) → ((e : HugeSlab) → HeldIn l e → e.base ≢ q) → IsOut heap q → IsOut heap' q

  moved_nodes :
      (heap heap' : Heap) (l : List Node)
      → ((e : HugeSlab) → HeldIn l e → IsOut heap e.base → IsOut heap' e.base)
      → AreNodes heap l
      → AreNodes heap' l
  moved_nodes heap heap' [] outs v = tt
  moved_nodes heap heap' (n ∷ rest) outs (node, apart, later) = (
    move_heap IsOut heap heap' n.partials n.fulls node (λ e k o. outs e (inl k) o),
    apart,
    moved_nodes heap heap' rest (λ e k o. outs e (inr k) o) later,
  )

  -- The page that a slab is carved from.
  page_of :
      (heap : Heap) (l : List Node) (a : ℕ)
      → AreNodes heap l
      → CarvedIn l a
      → (d : HugeSlab) × HeldIn l d × IsPage d × IsCarved d a
  page_of heap [] a v c = elim c [ ]
  page_of heap (n ∷ rest) a v (inl (d, h, c)) =
      (d, inl h, (held_by IsOut heap n.partials n.fulls d v.0 h).0, c)
  page_of heap (n ∷ rest) a v (inr c) =
      let (d, h, p, k) = page_of heap rest a v.2 c in (d, inr h, p, k)

  -- A node that does not hold the page does not own the slab.
  not_owning_lem :
      (n : Node) (d : HugeSlab) (a : ℕ)
      → IsPage d
      → IsCarved d a
      → ((e : HugeSlab) → Holds n.partials n.fulls e → e.base ≢ d.base)
      → find_owning n a ≡ none
  unfolding find_owning
  not_owning_lem n d a p c away =
      let base : huge_base a ≡ d.base = ap huge_base c.place ∙ huge_base-slot p c.slot c.inside in
      let first = find_base-Lacks n.partials d.base (λ e k. away e (inl k)) in
      let second = find_base-Lacks n.fulls d.base (λ e k. away e (inr k)) in
      rw (base, first, find_owning) (ap (find_base n.fulls) base ∙ second)

  module _ (os : PageSource Heap) (descs : DescSource Heap)
      (promise : IsPageSource os huge_page_size IsOut)
      (desc_promise : IsDescSource IsOut descs) where
    -- A release gives back at most the page of the slab.
    release_from-outs :
        (heap : Heap) (n : Node) (d : HugeSlab) (a q : ℕ)
        → d.base ≢ q
        → IsOut heap q
        → IsOut ((release_from os descs heap n d a).0) q
    unfolding release_from
    release_from-outs heap n d a q ne o =
        let given =
          promise.free_keeps (descs.desc_free heap) d.base q ne (desc_promise.free_out heap q o) in
        elim (Bool-cases (free (some d) a).1) [
          | inr f ↦ rw (f, release_from) o
          | inl t ↦ elim (Bool-cases (is_empty (some (after d (free (some d) a).0)))) [
            | inl e ↦ rw (t, e, release_from) given
            | inr e ↦ rw (t, e, release_from) o
          ]
        ]

    -- The node of the slab is the first.
    head-IsPoolReleased :
        (heap : Heap) (n : Node) (rest : List Node) (d : HugeSlab) (a : ℕ)
        → AreNodes heap (n ∷ rest)
        → Carved n a
        → Holds n.partials n.fulls d
        → (let r = release_from os descs heap n d a in IsReleased IsOut r.0 n r.1 a)
        → let r = release_from os descs heap n d a in
          IsPoolReleased heap r.0 (n ∷ rest) (r.1 ∷ rest) a
    head-IsPoolReleased heap n rest d a (node, apart, later) (f, g, c) h v = record {
      nodes = (
        v.listed,
        (λ x e k i s. let (y, j, same) = v.bases x k in apart y e j i (same ∙ s)),
        moved_nodes heap _ rest (λ e k o. release_from-outs heap n d a e.base (apart d e h k) o)
            later,
      );
      gone = λ k. elim k [
        | inl here ↦ v.gone here
        | inr there ↦
            (let (e, i, p, b) = page_of heap rest a later there in
              apart f e g i
                (carved_base f e a (held_by IsOut heap n.partials n.fulls f node g).0 p c b))
      ];
      keeps = λ y ne k. elim k [ inl here ↦ inl (v.keeps y ne here) | inr there ↦ inr there ];
      only = λ y k. elim k [ inl here ↦ inl (v.only y here) | inr there ↦ inr there ];
      bases = λ e k. elim k [
        | inl here ↦ (let (x, i, same) = v.bases e here in (x, inl i, same))
        | inr there ↦ (e, inr there, refl)
      ];
      outs = λ q away o. release_from-outs heap n d a q (away d (inl h)) o;
    }

    -- The node of the slab comes after the first.
    cons-IsPoolReleased :
        (heap heap' : Heap) (n : Node) (rest rest' : List Node) (a : ℕ)
        → AreNodes heap (n ∷ rest)
        → CarvedIn rest a
        → IsPoolReleased heap heap' rest rest' a
        → IsPoolReleased heap heap' (n ∷ rest) (n ∷ rest') a
    cons-IsPoolReleased heap heap' n rest rest' a (node, apart, later) c v = record {
      nodes = (
        move_heap IsOut heap heap' n.partials n.fulls node
            (λ d k o. v.outs d.base (λ e i s. apart d e k i (sym s)) o),
        (λ d e k i s. let (x, j, same) = v.bases e i in apart d x k j (s ∙ sym same)),
        v.nodes,
      );
      gone = λ k. elim k [
        | inl (f, g, b) ↦
            (let (e, i, p, b') = page_of heap rest a later c in
              apart f e g i
                (carved_base f e a (held_by IsOut heap n.partials n.fulls f node g).0 p b b'))
        | inr there ↦ v.gone there
      ];
      keeps = λ y ne k. elim k [ inl here ↦ inl here | inr there ↦ inr (v.keeps y ne there) ];
      only = λ y k. elim k [ inl here ↦ inl here | inr there ↦ inr (v.only y there) ];
      bases = λ e k. elim k [
        | inl here ↦ (e, inl here, refl)
        | inr there ↦ (let (x, i, same) = v.bases e there in (x, inr i, same))
      ];
      outs = λ q away o. v.outs q (λ e k. away e (inr k)) o;
    }

    release_nodes_lem :
        (heap : Heap) (l : List Node) (a : ℕ)
        → AreNodes heap l
        → CarvedIn l a
        → let r = release_nodes os descs heap l a in (r.2 ≡ true) × IsPoolReleased heap r.0 l r.1 a
    unfolding release_nodes
    release_nodes_lem heap [] a v c = elim c [ ]
    release_nodes_lem heap (n ∷ rest) a v (inl c) =
        let (d, h, search, (done, r)) =
          node_releases_slab IsOut os descs heap n a promise desc_promise v.0 c in
        rw (search, release_nodes) (done, head-IsPoolReleased heap n rest d a v c h r)
    release_nodes_lem heap (n ∷ rest) a v (inr c) =
        let (e, i, p, b) = page_of heap rest a v.2 c in
        let miss = not_owning_lem n e a p b (λ d k. v.1 d e k i) in
        let (done, r) = release_nodes_lem heap rest a v.2 c in
        rw (miss, release_nodes) (done, cons-IsPoolReleased heap _ n rest _ a v c r)

-- `v8m_numa_pool_release_slab` of a slab that some node of a pool in its invariant has carved returns true,
-- whichever node that is: the invariant is kept, the slab is not carved any more, and every other slab of
-- every node stays carved or not carved, whether the page of the slab becomes partial or empty.
pub releases_one_slab :
    {Heap : Type 0} (IsOut : Heap → ℕ → Type 0) (os : PageSource Heap) (descs : DescSource Heap)
    (heap : Heap) (pool : List Node) (a : ℕ)
    → IsPageSource os huge_page_size IsOut
    → IsDescSource IsOut descs
    → AreNodes IsOut heap pool
    → CarvedIn pool a
    → let r = release_slab os descs heap pool a in
      (r.2 ≡ true) × IsPoolReleased IsOut heap r.0 pool r.1 a
unfolding release_slab
releases_one_slab IsOut os descs heap pool a promise desc_promise v c =
    let (d, h, p, k) = page_of IsOut heap pool a v c in
    let based = p.valid.based in
    let place = k.place in
    let there : (a == 0) ≡ false = ne→== _ _ (λ e. omega (arith, based, place, e)) in
    rw there (release_nodes_lem IsOut os descs promise desc_promise heap pool a v c)
