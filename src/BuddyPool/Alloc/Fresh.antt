-- ===== src/BuddyPool/Alloc/Fresh.antt =====
-- A fresh arena for the pool: the page heap's promise keeps it apart from those in use.
use v8malloc.Prelude.{
  ℕ, ◌+◌, ◌%◌, ◌^◌, ◌≤◌, ◌<◌, ◌≡◌, ◌≢◌, refl, sym, ◌∙◌, inl, inr, Bool, true, false, List, [], ◌∷◌,
  arith, ◌==◌, Bool-cases, ==→eq, eq→==, ne→==, subst,
}
use v8malloc.Buddy.{Buddy, max_block, is_empty, size_to_level}
use v8malloc.Buddy
use v8malloc.Buddy.Inv.{IsArena, nothing}
use v8malloc.Buddy.Query.{init-IsArena}
use v8malloc.Buddy.Base.{alloc-base}
use v8malloc.Buddy.Reach.{served-IsArena}
use v8malloc.PageSource.{PageSource, IsPageSource, AreApart}
use v8malloc.BuddyPool.{Arena, acquire_fresh_arena}
use v8malloc.BuddyPool.Inv.{
  slots_outs, AllSlots, IsApartFrom, IsPool, IsKept, IsServed, across_blocks, IsKept-refl,
}
use v8malloc.BuddyPool.Alloc.Existing.{block, Outcome, cons_Outcome, rest-IsPool}

-- The first unused slot gets the fresh region.
module _ {Heap : Type 0} (IsOut : Heap → ℕ → Type 0) (os : PageSource Heap)
    (promise : IsPageSource os max_block IsOut) (size : ℕ) (pos : 0 < size)
    (le : size ≤ max_block) where
  abbrev fresh : Heap → Heap × ℕ
  fresh heap = os.page_heap_alloc heap max_block max_block

  abbrev filled : ℕ → Bool → Arena
  filled region used = record {
    buddy = (Buddy.alloc (Buddy.init region) size).0;
    in_use = used;
    drained = false;
    idle_ticks = 0;
  }

  next_lem :
      (heap : Heap) (s : Arena) (rest : List Arena)
      → s.in_use ≡ true
      → let later = acquire_fresh_arena os heap rest size in
        (later.0, s ∷ later.1, later.2) ≡ acquire_fresh_arena os heap (s ∷ rest) size
  unfolding acquire_fresh_arena
  next_lem heap s rest u = ground arith

  exhausted_lem :
      (heap : Heap) (s : Arena) (rest : List Arena)
      → s.in_use ≡ false
      → (fresh heap).1 ≡ 0
      → ((fresh heap).0, s ∷ rest, 0) ≡ acquire_fresh_arena os heap (s ∷ rest) size
  unfolding acquire_fresh_arena
  exhausted_lem heap s rest f z = ground arith

  filled_lem :
      (heap : Heap) (s : Arena) (rest : List Arena)
      → s.in_use ≡ false
      → (fresh heap).1 ≢ 0
      → (Buddy.alloc (Buddy.init (fresh heap).1) size).1 ≢ 0
      → (
        (fresh heap).0,
        filled (fresh heap).1 true ∷ rest,
        (Buddy.alloc (Buddy.init (fresh heap).1) size).1,
      )
        ≡ acquire_fresh_arena os heap (s ∷ rest) size
  unfolding acquire_fresh_arena
  filled_lem heap s rest f z nz = let a = ne→== _ _ z in let b = ne→== _ _ nz in ground arith

  refilled_lem :
      (heap : Heap) (s : Arena) (rest : List Arena)
      → s.in_use ≡ false
      → (fresh heap).1 ≢ 0
      → (Buddy.alloc (Buddy.init (fresh heap).1) size).1 ≡ 0
      → (
        os.page_heap_free (fresh heap).0 (fresh heap).1 max_block,
        filled (fresh heap).1 false ∷ rest,
        0,
      )
        ≡ acquire_fresh_arena os heap (s ∷ rest) size
  unfolding acquire_fresh_arena
  refilled_lem heap s rest f z nz = let a = ne→== _ _ z in ground arith

  init_base : (region : ℕ) → (Buddy.init region).arena_base ≡ region
  unfolding Buddy.init
  init_base region = refl

  unused_apart : (t : Arena) (l : List Arena) → t.in_use ≡ false → IsApartFrom t l
  unused_apart t [] f = tt
  unused_apart t (r ∷ l) f = ((λ u w. cc), unused_apart t l f)

  -- The first unused slot stays unused.
  unused-IsKept :
      (h h' : Heap) (s t : Arena) (l : List Arena)
      → IsPool IsOut h (s ∷ l)
      → s.in_use ≡ false
      → t.in_use ≡ false
      → t.drained ≡ false
      → ((q : ℕ) → IsOut h q → IsOut h' q)
      → IsKept IsOut h h' (s ∷ l) (t ∷ l)
  unused-IsKept h h' s t l p f g d outs = record {
    pool = record {
      slots = (
        record { arena = λ u. cc; out = λ u. cc; empty = λ e. cc; used = λ w. d },
        slots_outs IsOut h h' l outs p.slots.1,
      );
      pairs = (unused_apart t l g, p.pairs.1);
    };
    front = λ r o a. ((λ u w. cc), a.1);
    outs = outs;
    keeps = λ y o. elim o [ inl here ↦ absurd (false_true s here.0 f) | inr there ↦ inr there ];
  }
    where
      false_true : (s : Arena) → s.in_use ≡ true → s.in_use ≡ false → ⊥
      false_true s a b = let e : true ≡ false = sym a ∙ b in cc

  module _ (heap : Heap) (s : Arena) (rest : List Arena) (p : IsPool IsOut heap (s ∷ rest))
      (f : s.in_use ≡ false) (there : (fresh heap).1 ≢ 0) where
    abbrev region : ℕ
    region = (fresh heap).1

    facts :
        IsOut (fresh heap).0 region
        × (region + max_block < 2 ^ 64)
        × (region % max_block ≡ 0)
        × ((q : ℕ) → IsOut heap q → AreApart max_block region q)
    facts = promise.fresh heap (ground arith)

    region-IsArena : IsArena (Buddy.init region) nothing
    region-IsArena = init-IsArena region (ground arith) facts.1

    refilled-IsKept :
        IsKept IsOut heap
          (os.page_heap_free (fresh heap).0 region max_block)
          (s ∷ rest)
          (filled region false ∷ rest)
    refilled-IsKept = unused-IsKept heap _ s (filled region false) rest p f refl refl (λ q o.
        promise.free_keeps (fresh heap).0 region q
          (λ e. elim (facts.3 q o) [ inl a ↦ omega arith | inr a ↦ omega arith ])
          (promise.alloc_keeps heap q o))

    filled_base : (filled region true).buddy.arena_base ≡ region
    filled_base = alloc-base (Buddy.init region) size ∙ init_base region

    apart_rest : (l : List Arena) → AllSlots IsOut heap l → IsApartFrom (filled region true) l
    apart_rest [] v = tt
    apart_rest (t ∷ l) v = ((λ u w. rw filled_base (facts.3 _ (v.0.out w))), apart_rest l v.1)

    filled-IsServed :
        (Buddy.alloc (Buddy.init region) size).1 ≢ 0
        → IsServed IsOut heap
            (fresh heap).0
            (s ∷ rest)
            (filled region true ∷ rest)
            (block (Buddy.alloc (Buddy.init region) size).1 size)
    filled-IsServed ne =
        let (arena, own, others) =
          served-IsArena (Buddy.init region) region-IsArena size pos le ne in
        let apart = apart_rest rest p.slots.1 in
        let outs = promise.alloc_keeps heap in
        record {
          kept = record {
            pool = record {
              slots = (
                record {
                  arena = λ u. arena;
                  out = λ u. rw filled_base facts.0;
                  empty = λ e. cc;
                  used = λ w. refl;
                },
                slots_outs IsOut heap (fresh heap).0 rest outs p.slots.1,
              );
              pairs = (apart, p.pairs.1);
            };
            front = λ r o a. (
              (λ u w.
                  rw filled_base
                    (elim (facts.3 _ (o u)) [ inl before ↦ inr before | inr after ↦ inl after ])),
              a.1,
            );
            outs = outs;
            keeps = λ y o. elim o [ inl here ↦ absurd (clash here.0) | inr later ↦ inr later ];
          };
          own = inl (refl, own);
          apart = λ y o. elim o [
            | inl here ↦ absurd (clash here.0)
            | inr later ↦
                elim (across_blocks (filled region true) rest y (block _ size) refl apart own
                  later) [ inl a ↦ inr a | inr b ↦ inl b ]
          ];
        }
      where
        clash : s.in_use ≡ true → ⊥
        clash a = let e : true ≡ false = sym a ∙ f in cc

  abbrev pub Outcome3 : Heap → List Arena → Heap × List Arena × ℕ → Type 0
  Outcome3 heap l r = Outcome IsOut heap r.0 l (r.1, r.2) size

  pub acquire_lem :
      (heap : Heap) (l : List Arena)
      → IsPool IsOut heap l
      → Outcome3 heap l (acquire_fresh_arena os heap l size)
  unfolding acquire_fresh_arena
  acquire_lem heap [] p = inl (refl, IsKept-refl IsOut heap [] p)
  acquire_lem heap (s ∷ rest) p = elim (Bool-cases s.in_use) [
    | inl u ↦
        (let r = acquire_fresh_arena os heap rest size in
          subst (Outcome3 heap (s ∷ rest)) (next_lem heap s rest u) (
            cons_Outcome IsOut size pos le heap r.0 s rest (r.1, r.2) p
              (acquire_lem heap rest (rest-IsPool IsOut size pos le heap s rest p))))
    | inr f ↦ elim (Bool-cases ((fresh heap).1 == 0)) [
      | inl z ↦ subst (Outcome3 heap (s ∷ rest)) (exhausted_lem heap s rest f (==→eq _ _ z)) (
          inl (
            refl,
            unused-IsKept heap (fresh heap).0 s s rest p f f (p.slots.0.used f)
                (promise.alloc_keeps heap),
          ))
      | inr nz ↦
          (let there : (fresh heap).1 ≢ 0 = λ e. ground (arith, eq→== _ _ e) in
            elim (Bool-cases ((Buddy.alloc (Buddy.init (fresh heap).1) size).1 == 0)) [
              | inl w ↦
                  subst (Outcome3 heap (s ∷ rest)) (refilled_lem heap s rest f there (==→eq _ _ w))
                    (inl (refl, refilled-IsKept heap s rest p f there))
              | inr nw ↦
                  (let ne : (Buddy.alloc (Buddy.init (fresh heap).1) size).1 ≢ 0 =
                      λ e. ground (arith, eq→== _ _ e) in
                    subst (Outcome3 heap (s ∷ rest)) (filled_lem heap s rest f there ne)
                      (inr (ne, filled-IsServed heap s rest p f there ne)))
            ])
    ]
  ]
