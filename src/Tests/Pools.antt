-- ===== src/Tests/Pools.antt =====
-- Runs of the pool of buddy arenas, over a page heap that hands out one region after the other.
use v8malloc.Prelude.{
  ℕ, ◌+◌, ◌*◌, ◌%◌, ◌^◌, ◌<◌, ◌≡◌, ◌≢◌, ◌⊎◌, refl, ◌∙◌, inl, inr, true, false, List, [], ◌∷◌, arith,
  ltb, if◌then◌else◌, Bool-cases,
}
use v8malloc.Words.{msb}
use v8malloc.Buddy.{Buddy, max_block, is_empty, empty_from, size_to_level, find_level, update}
use v8malloc.Buddy
use v8malloc.Buddy.Inv.{IsArena, nothing}
use v8malloc.Buddy.Query.{init-IsArena}
use v8malloc.Buddy.Base.{alloc-base}
use v8malloc.Buddy.Reach.{IsOwned, served-IsArena}
use v8malloc.Buddy.Coalesce.{coalesce_all}
use v8malloc.Buddy.Coalesce.Sweep.{IsCoalesced, coalesce_all_lem}
use v8malloc.PageSource.{PageSource, IsPageSource, AreApart}
use v8malloc.BuddyPool.{
  Arena, Options, unused, alloc, try_existing_arenas, acquire_fresh_arena, free, sweep_idle,
  sweep_slot,
}
use v8malloc.BuddyPool.Inv.{IsSlot, IsPool, Owns, IsKept, IsServed}
use v8malloc.BuddyPool.Alloc.{gives_apart}
use v8malloc.BuddyPool.Alloc.Existing.{block}
use v8malloc.BuddyPool.Free.{frees_one}
use v8malloc.BuddyPool.Free.Search.{IsFreed}
use v8malloc.BuddyPool.Free.OneArena.{freed, freed-Left}
use v8malloc.BuddyPool.Sweep.{IsSwept, sweep_idle_lem}
use v8malloc.BuddyPool.Sweep.Slot.{AllFates}

-- The heap is the number of regions that it has handed out.
abbrev upward : PageSource ℕ
upward = record {
  page_heap_alloc =
      λ heap size alignment. if ltb heap (2 ^ 40) then (heap + 1, (heap + 1) * size) else (heap, 0);
  page_heap_free = λ heap region size. heap;
  advise_dont_need = λ heap region size. heap;
}

abbrev IsOut : ℕ → ℕ → Type 0
IsOut heap q = (k : ℕ) × (k < heap) × (q ≡ (k + 1) * max_block)

upward_fresh :
    (heap : ℕ)
    → let r = upward.page_heap_alloc heap max_block max_block in
      (0 < r.1)
      → IsOut r.0 r.1
        × (r.1 + max_block < 2 ^ 64)
        × (r.1 % max_block ≡ 0)
        × ((q : ℕ) → IsOut heap q → AreApart max_block r.1 q)
upward_fresh heap = elim (Bool-cases (ltb heap (2 ^ 40))) [
  | inl t ↦ rw t (λ pos.
      ((heap, omega arith, refl), ground arith, omega arith, λ q (k, below, e). inr (omega arith)))
  | inr f ↦ rw f (λ pos. absurd (omega arith))
]

upward_keeps :
    (heap q : ℕ) → IsOut heap q → IsOut (upward.page_heap_alloc heap max_block max_block).0 q
upward_keeps heap q (k, below, e) = elim (Bool-cases (ltb heap (2 ^ 40))) [
  | inl t ↦ rw t (k, omega arith, e)
  | inr f ↦ rw f (k, below, e)
]

upward-IsPageSource : IsPageSource upward max_block IsOut
upward-IsPageSource = record {
  fresh = upward_fresh;
  alloc_keeps = upward_keeps;
  free_keeps = λ heap p q ne o. o;
  advise_keeps = λ heap p q o. o;
}

abbrev options : Options
options = record { debug = false; deferred_coalesce = true }

abbrev first : Buddy
first = Buddy.init 262144

first-IsArena : IsArena first nothing
first-IsArena = init-IsArena 262144 (omega arith) (omega arith)

-- One arena with one block of 100 bytes, and a slot that is not in use.
abbrev one_block : List Arena
one_block =
    record { buddy = (Buddy.alloc first 100).0; in_use = true; drained = false; idle_ticks = 0 }
    ∷ unused
    ∷ []

first_address : (Buddy.alloc first 100).1 ≡ 262144
unfolding Buddy.alloc Buddy.init size_to_level find_level update
first_address = refl

first_served :
    IsArena (Buddy.alloc first 100).0 nothing
    × IsOwned (Buddy.alloc first 100).0 (block (Buddy.alloc first 100).1 100)
first_served =
    let (arena, own, others) =
      served-IsArena first first-IsArena 100 (omega arith) (omega arith)
        (rw first_address (omega arith)) in
    (arena, own)

first_base : (Buddy.alloc first 100).0.arena_base ≡ 262144
first_base = alloc-base first 100 ∙ unfold Buddy.init in refl

unused-IsSlot : IsSlot IsOut 1 unused
unused-IsSlot = record { arena = λ u. cc; out = λ u. cc; empty = λ d. cc; used = λ f. refl }

one_block-IsPool : IsPool IsOut 1 one_block
one_block-IsPool = record {
  slots = (
    record {
      arena = λ u. first_served.0;
      out = λ u. (0, omega arith, first_base);
      empty = λ d. cc;
      used = λ f. refl;
    },
    (unused-IsSlot, tt),
  );
  pairs = (((λ u w. cc), tt), (tt, tt));
}

one_block-Owns : Owns one_block (block (Buddy.alloc first 100).1 100)
one_block-Owns = inl (refl, first_served.1)

-- A request that the arena in use cannot serve gets a second one.
gives_apart_example :
    let r = alloc upward options 1 one_block 262144 in
    ((r.2 ≡ 0) × IsKept IsOut 1 r.0 one_block r.1)
    ⊎ ((r.2 ≢ 0) × IsServed IsOut 1 r.0 one_block r.1 (block r.2 262144))
gives_apart_example =
    gives_apart IsOut upward options 1 one_block 262144 upward-IsPageSource one_block-IsPool
      (omega arith) (omega arith)

second_arena : (alloc upward options 1 one_block 262144).2 ≡ 524288
unfolding alloc try_existing_arenas Buddy.alloc size_to_level msb find_level Buddy.init update
    Buddy.mark_alloc Buddy.split_down Buddy.list_push Buddy.mark_split acquire_fresh_arena
second_arena = refl

frees_one_example :
    let r = free upward options 1 one_block (Buddy.alloc first 100).1 in
    (r.2 ≡ true) × IsFreed IsOut 1 r.0 one_block r.1 (block (Buddy.alloc first 100).1 100)
frees_one_example =
    frees_one IsOut upward options 1 one_block (block (Buddy.alloc first 100).1 100)
      upward-IsPageSource one_block-IsPool one_block-Owns

-- A drained arena that has waited for three sweeps.
abbrev drained_pool : List Arena
drained_pool = record { buddy = first; in_use = true; drained = true; idle_ticks = 3 } ∷ unused ∷ []

drained_pool-IsPool : IsPool IsOut 1 drained_pool
unfolding is_empty empty_from Buddy.init
drained_pool-IsPool = record {
  slots = (
    record {
      arena = λ u. first-IsArena;
      out = λ u. (0, omega arith, refl);
      empty = λ d. refl;
      used = λ f. cc;
    },
    (unused-IsSlot, tt),
  );
  pairs = (((λ u w. cc), tt), (tt, tt));
}

sweep_idle_lem_example :
    IsSwept IsOut 1
      ((sweep_idle upward 4 1 drained_pool).0)
      drained_pool
      ((sweep_idle upward 4 1 drained_pool).1)
    × AllFates upward 4 1 drained_pool
        ((sweep_idle upward 4 1 drained_pool).0)
        ((sweep_idle upward 4 1 drained_pool).1)
        ((sweep_idle upward 4 1 drained_pool).2)
sweep_idle_lem_example =
    sweep_idle_lem IsOut upward upward-IsPageSource 4 1 drained_pool drained_pool-IsPool

swept_count : (sweep_idle upward 4 1 drained_pool).2 ≡ 1
unfolding sweep_idle sweep_slot
swept_count = refl

-- The arena after the free of its only page, before anything is merged.
abbrev scattered : Buddy
scattered = freed (Buddy.alloc first 100).0 (block (Buddy.alloc first 100).1 100) true

scattered-IsArena : IsArena scattered nothing
scattered-IsArena =
    (freed-Left (Buddy.alloc first 100).0 (block (Buddy.alloc first 100).1 100) first_served.0
      first_served.1 true).0

coalesce_all_lem_example : IsCoalesced 0 scattered ((coalesce_all scattered).0)
coalesce_all_lem_example = coalesce_all_lem scattered scattered-IsArena
