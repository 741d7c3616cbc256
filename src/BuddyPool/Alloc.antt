-- ===== src/BuddyPool/Alloc.antt =====
-- `v8m_buddy_pool_alloc`: NULL, or a block that lies apart from all others; the pool keeps its invariant.
pub mod Existing
pub mod Fresh
use v8malloc.Prelude.{
  ℕ, zero, suc, ◌+◌, ◌^◌, ◌≤◌, ◌<◌, ◌≡◌, ◌≢◌, ◌⊎◌, refl, sym, ap, ◌∙◌, inl, inr, Bool, true, false,
  not, ◌&&◌, ◌||◌, List, [], ◌∷◌, arith, ltb, ◌==◌, if◌then◌else◌, Bool-cases, ==→eq, eq→==, ne→==,
  subst,
}
use v8malloc.Buddy.{Buddy, max_block, is_empty, empty_from, size_to_level}
use v8malloc.Buddy.Geometry.{addr, shr}
use v8malloc.Buddy.Inv.{IsArena, nothing}
use v8malloc.Buddy.Coalesce.{coalesce_all}
use v8malloc.Buddy.Coalesce.Sweep.{coalesce_all_lem}
use v8malloc.Buddy.Reach.{Block, IsOwned}
use v8malloc.PageSource.{PageSource, IsPageSource}
use v8malloc.BuddyPool.{
  Arena, Options, try_existing_arenas, acquire_fresh_arena, coalesce_arenas, retry_coalesced, alloc,
}
use v8malloc.BuddyPool.Inv.{
  IsSlot, Owns, IsPool, IsKept, IsServed, IsKept-refl, IsKept-trans, IsServed-after, cons-IsKept,
  head-IsKept,
}
use v8malloc.BuddyPool.Alloc.Existing.{block, Outcome, existing_lem}
use v8malloc.BuddyPool.Alloc.Fresh.{acquire_lem}

empty_from-same :
    (k : ℕ) (b c : Buddy) (level : ℕ)
    → c.alloc_bitmap ≡ b.alloc_bitmap
    → empty_from k c level ≡ empty_from k b level
unfolding empty_from
empty_from-same zero b c level e = refl
empty_from-same (suc k) b c level e =
    ground (arith, empty_from-same k b c (suc level) e, ap (λ (f : ℕ → ℕ). f level) e)

pub is_empty-same : (b c : Buddy) → c.alloc_bitmap ≡ b.alloc_bitmap → is_empty c ≡ is_empty b
unfolding is_empty
is_empty-same b c e = empty_from-same _ b c 0 e

-- Allocations that stay where they are stay owned.
pub IsOwned-same :
    (b c : Buddy) (y : Block)
    → c.alloc_bitmap ≡ b.alloc_bitmap
    → c.arena_base ≡ b.arena_base
    → IsOwned b y
    → IsOwned c y
IsOwned-same b c y allocs base o = record {
  page = o.page;
  inside = o.inside;
  level = o.level;
  fits = o.fits;
  place = rw base o.place;
  marked = rw allocs o.marked;
}

module _ {Heap : Type 0} (IsOut : Heap → ℕ → Type 0) (heap : Heap) where
  abbrev swept : Arena → Arena
  swept s = record s { buddy = (coalesce_all s.buddy).0 }

  swept-IsKept :
      (s : Arena) (rest : List Arena)
      → IsPool IsOut heap (s ∷ rest)
      → s.in_use ≡ true
      → IsKept IsOut heap heap (s ∷ rest) (swept s ∷ rest)
  swept-IsKept s rest p u =
      let v = p.slots.0 in
      let c = (coalesce_all_lem s.buddy (v.arena u)).kept in
      let slot : IsSlot IsOut heap (swept s) = record {
        arena = λ w. c.arena;
        out = λ w. rw c.base (v.out u);
        empty = λ e. is_empty-same s.buddy _ c.allocs ∙ v.empty e;
        used = v.used;
      } in
      head-IsKept IsOut heap s (swept s) rest p slot c.base u u
        (λ y o. IsOwned-same s.buddy _ y c.allocs c.base o)

  abbrev Swept : List Arena → List Arena × Bool → Type 0
  Swept l r = IsKept IsOut heap heap l r.0

  swept_lem :
      (s : Arena) (rest : List Arena)
      → s.in_use ≡ true
      → (
        swept s ∷ (coalesce_arenas rest).0,
        ltb 0 ((coalesce_all s.buddy).1) || (coalesce_arenas rest).1,
      )
        ≡ coalesce_arenas (s ∷ rest)
  unfolding coalesce_arenas
  swept_lem s rest u = ground arith

  unswept_lem :
      (s : Arena) (rest : List Arena)
      → s.in_use ≡ false
      → (s ∷ (coalesce_arenas rest).0, (coalesce_arenas rest).1) ≡ coalesce_arenas (s ∷ rest)
  unfolding coalesce_arenas
  unswept_lem s rest f = ground arith

  coalesce_arenas_lem : (l : List Arena) → IsPool IsOut heap l → Swept l (coalesce_arenas l)
  unfolding coalesce_arenas
  coalesce_arenas_lem [] p = IsKept-refl IsOut heap [] p
  coalesce_arenas_lem (s ∷ rest) p =
      let below : IsPool IsOut heap rest = record { slots = p.slots.1; pairs = p.pairs.1 } in
      let later = coalesce_arenas_lem rest below in
      let rest' = (coalesce_arenas rest).0 in
      elim (Bool-cases s.in_use) [
        | inl u ↦
            (let first = swept-IsKept s rest p u in
              subst (Swept (s ∷ rest)) (swept_lem s rest u) (
                IsKept-trans IsOut heap heap heap (s ∷ rest) (swept s ∷ rest) (swept s ∷ rest')
                  first (cons-IsKept IsOut heap heap (swept s) rest rest' first.pool later)))
        | inr f ↦
            subst (Swept (s ∷ rest)) (unswept_lem s rest f)
              (cons-IsKept IsOut heap heap s rest rest' p later)
      ]

  after_kept :
      (l l' : List Arena) (r : List Arena × ℕ) (heap' : Heap) (size : ℕ)
      → IsKept IsOut heap heap' l l'
      → Outcome IsOut heap' heap' l' r size
      → Outcome IsOut heap heap' l r size
  after_kept l l' r heap' size k (inl (z, v)) =
      inl (z, IsKept-trans IsOut heap heap' heap' l l' r.0 k v)
  after_kept l l' r heap' size k (inr (nz, v)) =
      inr (nz, IsServed-after IsOut heap heap' heap' l l' r.0 (block r.1 size) k v)

  retry_lem :
      (options : Options) (l : List Arena) (size : ℕ)
      → 0 < size
      → size ≤ max_block
      → IsPool IsOut heap l
      → Outcome IsOut heap heap l (retry_coalesced options l size) size
  unfolding retry_coalesced
  retry_lem options l size pos le p =
      let swept = coalesce_arenas_lem l p in
      let l' = (coalesce_arenas l).0 in
      elim (Bool-cases options.deferred_coalesce) [
        | inr f ↦ rw f (inl (refl, IsKept-refl IsOut heap l p))
        | inl t ↦ elim (Bool-cases (coalesce_arenas l).1) [
          | inl any ↦
              rw (t, any)
                (after_kept l l' (try_existing_arenas l' size) heap size swept
                  (existing_lem IsOut size pos le heap l' swept.pool))
          | inr none_merged ↦ rw (t, none_merged) (inl (refl, swept))
        ]
      ]

-- `v8m_buddy_pool_alloc` of 1 byte to 256 KiB keeps the pool's invariant and every allocated block, with
-- and without deferred coalescing. It returns NULL, or a block of the pool whose bytes lie apart from
-- those of every block that was allocated before.
pub gives_apart :
    {Heap : Type 0} (IsOut : Heap → ℕ → Type 0) (os : PageSource Heap) (options : Options)
    (heap : Heap) (arenas : List Arena) (size : ℕ)
    → IsPageSource os max_block IsOut
    → IsPool IsOut heap arenas
    → 0 < size
    → size ≤ max_block
    → let r = alloc os options heap arenas size in
      ((r.2 ≡ 0) × IsKept IsOut heap r.0 arenas r.1)
      ⊎ ((r.2 ≢ 0) × IsServed IsOut heap r.0 arenas r.1 (block r.2 size))
unfolding alloc
gives_apart IsOut os options heap arenas size promise p pos le =
    let wanted : (size == 0 || ltb max_block size) ≡ false = ground arith in
    let tried = try_existing_arenas arenas size in
    let grown = acquire_fresh_arena os heap tried.0 size in
    elim (existing_lem IsOut size pos le heap arenas p) [
      | inr (nz, v) ↦ let some_block = ne→== _ _ nz in rw (wanted, some_block) (inr (nz, v))
      | inl (z, k) ↦
          (let refused = eq→== _ _ z in
            elim (acquire_lem IsOut os promise size pos le heap tried.0 k.pool) [
              | inr (nz, v) ↦
                  (let some_block = ne→== _ _ nz in
                    rw (wanted, refused, some_block)
                      (inr (
                        nz,
                        IsServed-after IsOut heap heap grown.0 arenas tried.0 grown.1
                            (block grown.2 size) k v,
                      )))
              | inl (w, g) ↦
                  (let refused' = eq→== _ _ w in
                    let all = IsKept-trans IsOut heap heap grown.0 arenas tried.0 grown.1 k g in
                    rw (wanted, refused, refused')
                      (after_kept IsOut heap arenas grown.1 (retry_coalesced options grown.1 size)
                        grown.0 size all
                        (retry_lem IsOut grown.0 options grown.1 size pos le all.pool)))
            ])
    ]
