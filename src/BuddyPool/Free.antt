-- ===== src/BuddyPool/Free.antt =====
-- `v8m_buddy_pool_free`: the owning arena is found, the block is freed there, and the other blocks stay.
pub mod OneArena
pub mod Search
use v8malloc.Prelude.{
  ℕ, zero, suc, ◌+◌, ◌^◌, ◌≤◌, ◌<◌, ◌≡◌, ◌≢◌, ◌⊎◌, refl, sym, ap, ◌∙◌, inl, inr, Bool, true, false,
  not, ◌&&◌, ◌||◌, List, [], ◌∷◌, arith, ltb, leb, ◌==◌, if◌then◌else◌, Bool-cases, ==→eq, eq→==,
  ne→==, subst,
}
use v8malloc.Words.{wrap64, test_bit, msb}
use v8malloc.Buddy.{Buddy, levels, max_block, is_empty, empty_from, size_to_level, level_to_size}
use v8malloc.Buddy
use v8malloc.Words.Bits.{test_bit-zero}
use v8malloc.Buddy.Geometry.{addr, addr-eq, shr, pages, level_to_size-pos}
use v8malloc.Buddy.Inv.{IsArena, nothing}
use v8malloc.Buddy.Base.{free-base}
use v8malloc.Buddy.Query.{block_size_lem}
use v8malloc.Buddy.Free.{frees_allocated_block}
use v8malloc.Buddy.Coalesce.Sweep.{free_no_coalesce_lem}
use v8malloc.Buddy.Reach.{Block, IsOwned}
use v8malloc.PageSource.{PageSource, IsPageSource, AreApart}
use v8malloc.BuddyPool.{
  Arena, Options, owns_address, Found, absent, found, behind, find_owning_arena, drain, free,
}
use v8malloc.BuddyPool.Inv.{
  IsSlot, AllSlots, AreSlotsApart, IsApartFrom, Owns, IsPool, owned_within, across, slots_outs,
}
use v8malloc.BuddyPool.Free.OneArena.{freed, freed-Left, owned_live, clash, size_lem}
use v8malloc.BuddyPool.Free.Search.{IsFreed, IsPlace, find_lem}

module _ {Heap : Type 0} (IsOut : Heap → ℕ → Type 0) (os : PageSource Heap)
    (promise : IsPageSource os max_block IsOut) (options : Options) (heap : Heap) where
  drain-outs : (s : Arena) (q : ℕ) → IsOut heap q → IsOut ((drain os options heap s).0) q
  unfolding drain
  drain-outs s q o = elim (Bool-cases (is_empty s.buddy)) [
    | inr f ↦ rw (f, drain) o
    | inl t ↦ elim (Bool-cases options.debug) [
      | inl d ↦ rw (t, d, drain) o
      | inr n ↦ rw (t, n, drain) (promise.advise_keeps heap s.buddy.arena_base q o)
    ]
  ]

  -- The freed arena after `drain`.
  abbrev emptied : Block → Arena → Arena
  emptied x s = record s { buddy = freed s.buddy x options.deferred_coalesce }

  drain_empty :
      (t : Arena)
      → is_empty t.buddy ≡ true
      → (drain os options heap t).1 ≡ record t { drained = true; idle_ticks = 0 }
  unfolding drain
  drain_empty t e = ground arith

  drain_live : (t : Arena) → is_empty t.buddy ≡ false → (drain os options heap t).1 ≡ t
  unfolding drain
  drain_live t e = ground arith

  drain-IsPlace :
      (x : Block) (s : Arena)
      → s.in_use ≡ true
      → IsSlot IsOut heap s
      → IsOwned s.buddy x
      → let t = emptied x s in
        IsPlace IsOut heap
          ((drain os options heap t).0)
          (drain-outs t)
          x
          s
          ((drain os options heap t).1)
  drain-IsPlace x s u v o =
      let t = emptied x s in
      let (arena, base, keeps, only) =
        freed-Left s.buddy x (v.arena u) o options.deferred_coalesce in
      let out = drain-outs t t.buddy.arena_base (rw base (v.out u)) in
      let Place = IsPlace IsOut heap ((drain os options heap t).0) (drain-outs t) x s in
      elim (Bool-cases (is_empty t.buddy)) [
        | inl e ↦ subst Place (sym (drain_empty t e)) (record {
          slot = record {
            arena = λ w. arena;
            out = λ w. out;
            empty = λ w. e;
            used = λ w. absurd (clash (sym u ∙ w));
          };
          base = base;
          used = u;
          keeps = keeps;
          only = only;
        })
        | inr f ↦ subst Place (sym (drain_live t f)) (record {
          slot = record {
            arena = λ w. arena;
            out = λ w. out;
            empty = λ d. absurd (clash (sym (v.empty d) ∙ owned_live s.buddy x o));
            used = v.used;
          };
          base = base;
          used = u;
          keeps = keeps;
          only = only;
        })
      ]

-- `v8m_buddy_pool_free` of an allocated block of the pool finds it and returns true, keeps the pool's
-- invariant and frees that block alone, with and without deferred coalescing: the blocks allocated
-- afterwards are exactly those allocated before at other addresses.
pub frees_one :
    {Heap : Type 0} (IsOut : Heap → ℕ → Type 0) (os : PageSource Heap) (options : Options)
    (heap : Heap) (arenas : List Arena) (x : Block)
    → IsPageSource os max_block IsOut
    → IsPool IsOut heap arenas
    → Owns arenas x
    → let r = free os options heap arenas x.address in
      (r.2 ≡ true) × IsFreed IsOut heap r.0 arenas r.1 x
unfolding free
frees_one IsOut os options heap arenas x promise p o =
    let r = find_lem IsOut heap x arenas p o in
    let s = r.owner in
    let place = drain-IsPlace IsOut os promise options heap x s r.used r.slot r.owned in
    let arena = r.slot.arena r.used in
    let there : (x.address == 0) ≡ false =
      let w = owned_within s.buddy x r.owned in let b = arena.place.based in ground arith in
    let sized : (Buddy.block_size s.buddy x.address == 0) ≡ false = ne→== _ _ (λ e.
      omega (arith, size_lem s.buddy x arena r.owned, level_to_size-pos (size_to_level x.size))) in
    rw (there, r.search, sized)
      (
        refl,
        r.freed_lem _
            (drain-outs IsOut os promise options heap (emptied IsOut os promise options heap x s)) _
            place,
      )
