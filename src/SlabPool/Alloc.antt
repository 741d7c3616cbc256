-- ===== src/SlabPool/Alloc.antt =====
-- A pool whose class has a partial page serves the request from it.
use v8malloc.Prelude.{
  ℕ, zero, suc, ◌+◌, ◌≡◌, ◌≢◌, ◌⊎◌, refl, sym, ap, ◌∙◌, subst, inl, inr, Bool, true, false, List,
  [], ◌∷◌, leb, if◌then◌else◌, arith, eq→==, ne→==, update_self, update_ne,
}
use v8malloc.Words.{wrap32}
use v8malloc.Slab.Tiny.{TinyMeta, is_full}
use v8malloc.Slab.Small.{SmallMeta, is_full as is_full_small, alloc as alloc_small}
use v8malloc.Slab.Tiny.Bitmap.{marked-mark}
use v8malloc.Slab.Tiny.Inv.{IsTiny}
use v8malloc.Slab.Tiny.Laws.{claims_free_slot}
use v8malloc.Slab.Small.Laws.{IsSmall, pops_slot}
use v8malloc.SlabPool.{Class, Pool, scan, scan_budget, unlink, set_class, write_page, try_partials}
use v8malloc.SlabPool.Dispatch.{
  Page, tiny, small, used_count, size_class_of, slab_alloc_dispatch, slab_is_full_dispatch,
}
use v8malloc.SlabPool.InUse.{IsInUse}
use v8malloc.SlabPool.Lists.{
  Among, IsClass, IsListed, same_page, of_unlink, unlink-IsOnce, unlink_gone,
}

-- The page satisfies the invariant of its kind.
abbrev pub IsSlab : ℕ → Page → Type 0
IsSlab page (tiny meta) = IsTiny page meta
IsSlab page (small meta mem) = (frees : List ℕ) × IsSmall page mem meta frees

-- An object of the page is handed out.
pub record IsTaken (page : ℕ) (p : Page) (r : Page × ℕ) : Type 0 where
  pub some_object : r.1 ≢ 0
  pub slab : IsSlab page r.0
  pub same_class : size_class_of r.0 ≡ size_class_of p
  pub in_use : IsInUse page r.0 r.1

clash : true ≢ false
clash e = ground arith

tiny-IsTaken :
    (page : ℕ) (m : TinyMeta)
    → IsTiny page m
    → is_full m ≡ false
    → IsTaken page (tiny m) (slab_alloc_dispatch page (tiny m))
unfolding slab_alloc_dispatch is_full
tiny-IsTaken page m v open' = elim (claims_free_slot page m v) [
  | inl (e, full) ↦ absurd (clash (sym (eq→== _ _ full) ∙ open'))
  | inr (slot, below, free_bit, e, v') ↦ rw e (record {
    some_object = λ z. omega arith;
    slab = v';
    same_class = refl;
    in_use = (
      slot,
      v',
      below,
      (let words = v.words in
          let cap = v.bounded in ground (arith, marked-mark m.bitmap slot (omega arith) slot)),
      refl,
    );
  })
]

abbrev without_head : SmallMeta → (ℕ → ℕ) → SmallMeta
without_head m mem = record m {
  free_list_head = mem m.free_list_head;
  used_count = wrap32 (m.used_count + 1);
}

alloc_head :
    (m : SmallMeta) (mem : ℕ → ℕ)
    → m.free_list_head ≢ 0
    → alloc_small mem m ≡ (without_head m mem, m.free_list_head)
unfolding alloc_small
alloc_head m mem h = rw (ne→== _ _ h) refl

small-IsTaken :
    (page : ℕ) (m : SmallMeta) (mem : ℕ → ℕ) (frees : List ℕ)
    → IsSmall page mem m frees
    → is_full_small m ≡ false
    → IsTaken page (small m mem) (slab_alloc_dispatch page (small m mem))
unfolding slab_alloc_dispatch is_full_small
small-IsTaken page m mem [] v open' =
    let counted = v.counted in absurd (clash (sym (eq→== _ _ (omega arith)) ∙ open'))
small-IsTaken page m mem (s ∷ rest) v open' =
    let based = v.based in
    let place = v.chain.0 in
    let head = alloc_head m mem (λ z. omega arith) in
    let popped =
      subst (λ (r : SmallMeta × ℕ). IsSmall page mem r.0 rest) head
        (pops_slot page mem m s rest v).1 in
    let counted = v.counted in
    let cap = v.bounded in
    subst (λ (r : SmallMeta × ℕ). IsTaken page (small m mem) (small r.0 mem, r.1)) (sym head)
      (record {
        some_object = λ z. omega arith;
        slab = (rest, popped);
        same_class = refl;
        in_use = (s, rest, popped, v.slots.0, v.slots.1, omega arith, place);
      })

alloc-IsTaken :
    (page : ℕ) (p : Page)
    → IsSlab page p
    → slab_is_full_dispatch p ≡ false
    → IsTaken page p (slab_alloc_dispatch page p)
unfolding slab_is_full_dispatch
alloc-IsTaken page (tiny m) v open' = tiny-IsTaken page m v open'
alloc-IsTaken page (small m mem) (frees, v) open' = small-IsTaken page m mem frees v open'

-- The scan chooses a page of the list.
scan-Among :
    (budget : ℕ) (pages : ℕ → Page) (l : List ℕ) (used best : ℕ)
    → (scan budget pages l used best ≡ best) ⊎ Among (scan budget pages l used best) l
unfolding scan
scan-Among zero pages l used best = inl refl
scan-Among (suc budget) pages [] used best = inl refl
scan-Among (suc budget) pages (x ∷ rest) used best =
    let n = used_count (pages x) in
    let best' = if leb used n then x else best in
    let used' = if leb used n then n else used in
    elim (scan-Among budget pages rest used' best') [
      | inl chosen ↦ elim (either (leb used n) x best) [
        | inl here ↦ inr (inl (chosen ∙ here))
        | inr old ↦ inl (chosen ∙ old)
      ]
      | inr there ↦ inr (inr there)
    ]
  where
    either :
        (b : Bool) (x best : ℕ) → ((if b then x else best) ≡ x) ⊎ ((if b then x else best) ≡ best)
    either true x best = inl refl
    either false x best = inr refl

module _ (pool : Pool) (cls page : ℕ) (p : Page) (v : IsListed pool)
    (listed : Among page (pool.classes cls).partials)
    (same_class : size_class_of p ≡ size_class_of (pool.pages page)) where
  abbrev served : Pool
  served =
      write_page
        (set_class pool cls
          (record { current = page; partials = unlink (pool.classes cls).partials page }))
        page p

  gone : Among page (unlink (pool.classes cls).partials page) → ⊥
  gone = unlink_gone page (pool.classes cls).partials (v cls).once

  other : (x : ℕ) → Among x (unlink (pool.classes cls).partials page) → x ≢ page
  other x h e = gone (subst (λ y. Among y (unlink (pool.classes cls).partials page)) e h)

  of_class : (k : ℕ) → size_class_of (pool.pages page) ≡ k → k ≡ cls
  of_class k e = sym e ∙ (v cls).classed page listed

  elsewhere : (k : ℕ) → k ≢ cls → IsClass served.pages k (pool.classes k)
  elsewhere k differ =
      let w = v k in
      let apart = λ (x : ℕ) (e : size_class_of (pool.pages x) ≡ k) (same : x ≡ page).
        differ (of_class k (subst (λ y. size_class_of (pool.pages y) ≡ k) same e)) in
      record {
        once = w.once;
        apart = w.apart;
        sound = w.sound;
        classed = λ x h.
            ap size_class_of (update_ne pool.pages page p x (apart x (w.classed x h)))
            ∙ w.classed x h;
        open_page = λ x h.
            ap slab_is_full_dispatch (update_ne pool.pages page p x (apart x (w.classed x h)))
            ∙ w.open_page x h;
        current_class = λ pos.
            ap size_class_of (update_ne pool.pages page p _ (apart _ (w.current_class pos)))
            ∙ w.current_class pos;
      }

  -- The page becomes the current one and leaves the partial pages.
  served-IsListed : IsListed served
  served-IsListed k = elim (same_page k cls) [
    | inl same ↦
        subst (λ j. IsClass served.pages j (served.classes j)) (sym same)
          (subst (IsClass served.pages cls) (sym (update_self pool.classes cls _)) (record {
            once = unlink-IsOnce page _ (v cls).once;
            apart = gone;
            sound = λ x h. (v cls).sound x (of_unlink page _ x h);
            classed = λ x h.
                ap size_class_of (update_ne pool.pages page p x (other x h))
                ∙ (v cls).classed x (of_unlink page _ x h);
            open_page = λ x h.
                ap slab_is_full_dispatch (update_ne pool.pages page p x (other x h))
                ∙ (v cls).open_page x (of_unlink page _ x h);
            current_class = λ pos.
                ap size_class_of (update_self pool.pages page p)
                ∙ same_class
                ∙ (v cls).classed page listed;
          }))
    | inr differ ↦
        subst (IsClass served.pages k) (sym (update_ne pool.classes cls _ k differ))
          (elsewhere k differ)
  ]

-- The first round of the loop is the last one.
first_round :
    (pool : Pool) (cls rounds head : ℕ) (rest : List ℕ)
    → (pool.classes cls).partials ≡ head ∷ rest
    → let page = scan scan_budget pool.pages (head ∷ rest) 0 head in
      let r = slab_alloc_dispatch page (pool.pages page) in
      (r.1 ≢ 0)
      → try_partials (suc rounds) pool cls ≡ (
        write_page
            (set_class pool cls
              (record { current = page; partials = unlink (pool.classes cls).partials page }))
            page
            r.0,
        r.1,
      )
unfolding try_partials
first_round pool cls rounds head rest e some_object =
    rw (e, try_partials, ne→== _ _ some_object) refl

-- `try_partials` on a pool whose lists are sound, of a class with a partial page: it takes a page off the
-- partial list in its first round, which becomes the current page, and hands out an object of it, which is in
-- use afterwards; the lists stay sound.
pub partial_page_serves :
    (pool : Pool) (cls rounds head : ℕ) (rest : List ℕ)
    → IsListed pool
    → ((page : ℕ) → Among page (pool.classes cls).partials → IsSlab page (pool.pages page))
    → (pool.classes cls).partials ≡ head ∷ rest
    → let r = try_partials (suc rounds) pool cls in
      let page = (r.0.classes cls).current in
      (r.1 ≢ 0)
      × IsListed r.0
      × Among page (pool.classes cls).partials
      × IsSlab page (r.0.pages page)
      × IsInUse page (r.0.pages page) r.1
partial_page_serves pool cls rounds head rest v slabs e =
    let page = scan scan_budget pool.pages (head ∷ rest) 0 head in
    let among : Among page (head ∷ rest) =
      elim (scan-Among scan_budget pool.pages (head ∷ rest) 0 head) [
        | inl first ↦ inl first
        | inr there ↦ there
      ] in
    let listed : Among page (pool.classes cls).partials = subst (Among page) (sym e) among in
    let got =
      alloc-IsTaken page (pool.pages page) (slabs page listed) ((v cls).open_page page listed) in
    let r = slab_alloc_dispatch page (pool.pages page) in
    let n = served pool cls page r.0 v listed got.same_class in
    let at = update_self pool.pages page r.0 in
    let current = ap Class.current (
      update_self pool.classes cls
        (record { current = page; partials = unlink (pool.classes cls).partials page })) in
    subst
      (λ (q : Pool × ℕ).
        let x = (q.0.classes cls).current in
        (q.1 ≢ 0)
        × IsListed q.0
        × Among x (pool.classes cls).partials
        × IsSlab x (q.0.pages x)
        × IsInUse x (q.0.pages x) q.1)
      (sym (first_round pool cls rounds head rest e got.some_object))
      (
        got.some_object,
        served-IsListed pool cls page r.0 v listed got.same_class,
        subst (λ x. Among x (pool.classes cls).partials) (sym current) listed,
        subst (λ x. IsSlab x (n.pages x)) (sym current) (subst (IsSlab page) (sym at) got.slab),
        subst (λ x. IsInUse x (n.pages x) r.1) (sym current)
            (subst (λ q. IsInUse page q r.1) (sym at) got.in_use),
      )
