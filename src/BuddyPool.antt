-- ===== src/BuddyPool.antt =====
-- src/v8m_buddy_pool.c: up to 256 arenas of the buddy allocator. A caller holds the lock for the whole of
-- a call, so that each call is one step. The array is a list, and its loops are recursion on the list.
pub mod Inv
pub mod Alloc
pub mod Free
pub mod Sweep
use v8malloc.Prelude.{
  ℕ, zero, suc, ◌+◌, ◌-◌, ◌^◌, Bool, true, false, not, ◌&&◌, ◌||◌, Option, none, some, List, [],
  ◌∷◌, ltb, leb, ◌==◌, if◌then◌else◌, replicate,
}
use v8malloc.Words.{wrap64}
use v8malloc.Buddy.{Buddy, max_block}
use v8malloc.Buddy
use v8malloc.Buddy.Coalesce.{coalesce_all}
use v8malloc.PageSource.{PageSource}

-- V8M_BUDDY_POOL_MAX_ARENAS
abbrev pub max_arenas : ℕ
max_arenas = 256

pub record Arena : Type 0 where
  pub buddy : Buddy
  pub in_use : Bool
  pub drained : Bool
  pub idle_ticks : ℕ

-- `v8m_config_get` of the two options that the code reads.
pub record Options : Type 0 where
  pub debug : Bool
  pub deferred_coalesce : Bool

-- The arena bookkeeping of a slot that was never in use is zero.
abbrev pub unused : Arena
unused = record {
  buddy = record {
    arena_base = 0;
    arena_size = 0;
    free_lists = λ level. [];
    alloc_bitmap = λ level. 0;
    split_bitmap = λ level. 0;
  };
  in_use = false;
  drained = false;
  idle_ticks = 0;
}

unfoldable pub init : List Arena
init = replicate max_arenas unused

abbrev pub owns_address : Arena → ℕ → Bool
owns_address slot addr =
    slot.in_use
    && (leb slot.buddy.arena_base addr
        && ltb addr (wrap64 (slot.buddy.arena_base + slot.buddy.arena_size)))

-- The slots before the owning arena, the arena, and the slots after it.
pub data Found : Type 0 where
  absent : Found
  found : (slot : Arena) (put_back : Arena → List Arena) → Found

abbrev pub behind : Arena → Found → Found
behind slot absent = absent
behind slot (found owner put_back) = found owner (λ changed. slot ∷ put_back changed)

unfoldable pub find_owning_arena : List Arena → ℕ → Found
find_owning_arena [] addr = absent
find_owning_arena (slot ∷ rest) addr =
    if owns_address slot addr
    then found slot (λ changed. changed ∷ rest)
    else behind slot (find_owning_arena rest addr)

unfoldable pub try_existing_arenas : List Arena → ℕ → List Arena × ℕ
try_existing_arenas [] size = ([], 0)
try_existing_arenas (slot ∷ rest) size =
    let (buddy', obj) = Buddy.alloc slot.buddy size in
    let (rest', later) = try_existing_arenas rest size in
    let tried = if slot.in_use then record slot { buddy = buddy' } else slot in
    if slot.in_use && not (obj == 0)
    then (record slot { buddy = buddy'; drained = false; idle_ticks = 0 } ∷ rest, obj)
    else (tried ∷ rest', later)

-- Whether any arena has merged blocks.
unfoldable pub coalesce_arenas : List Arena → List Arena × Bool
coalesce_arenas [] = ([], false)
coalesce_arenas (slot ∷ rest) =
    let (buddy', merges) = coalesce_all slot.buddy in
    let (rest', any) = coalesce_arenas rest in
    if slot.in_use
    then (record slot { buddy = buddy' } ∷ rest', ltb 0 merges || any)
    else (slot ∷ rest', any)

-- The second try of the deferred mode.
unfoldable pub retry_coalesced : Options → List Arena → ℕ → List Arena × ℕ
retry_coalesced options arenas size =
    let (swept, any_merge) = coalesce_arenas arenas in
    if not options.deferred_coalesce
    then (arenas, 0)
    else if any_merge
    then try_existing_arenas swept size
    else (swept, 0)

-- One slot of the sweep, and whether it is released.
unfoldable pub sweep_slot : ℕ → Arena → Arena × Bool
sweep_slot max_idle_ticks slot =
    let ticks = if ltb slot.idle_ticks (2 ^ 32 - 1) then slot.idle_ticks + 1 else slot.idle_ticks in
    if not slot.in_use || not slot.drained
    then (slot, false)
    else if leb max_idle_ticks ticks
    then (record slot { in_use = false; drained = false; idle_ticks = 0 }, true)
    else (record slot { idle_ticks = ticks }, false)

module _ {Heap : Type 0} (os : PageSource Heap) where
  unfoldable pub acquire_fresh_arena : Heap → List Arena → ℕ → Heap × List Arena × ℕ
  acquire_fresh_arena heap [] size = (heap, [], 0)
  acquire_fresh_arena heap (slot ∷ rest) size =
      let later = acquire_fresh_arena heap rest size in
      let (heap', arena) = os.page_heap_alloc heap max_block max_block in
      let (buddy', obj) = Buddy.alloc (Buddy.init arena) size in
      let filled : Arena = record {
        buddy = buddy';
        in_use = true;
        drained = false;
        idle_ticks = 0;
      } in
      if slot.in_use
      then (later.0, slot ∷ later.1, later.2)
      else if arena == 0
      then (heap', slot ∷ rest, 0)
      else if obj == 0
      then (os.page_heap_free heap' arena max_block, record filled { in_use = false } ∷ rest, 0)
      else (heap', filled ∷ rest, obj)

  unfoldable pub alloc : Options → Heap → List Arena → ℕ → Heap × List Arena × ℕ
  alloc options heap arenas size =
      let (tried, obj) = try_existing_arenas arenas size in
      let (heap', grown, obj') = acquire_fresh_arena heap tried size in
      let (swept, obj'') = retry_coalesced options grown size in
      if size == 0 || ltb max_block size
      then (heap, arenas, 0)
      else if not (obj == 0)
      then (heap, tried, obj)
      else if not (obj' == 0)
      then (heap', grown, obj')
      else (heap', swept, obj'')

  -- An arena that a free has emptied keeps its bookkeeping and gives back its memory.
  unfoldable pub drain : Options → Heap → Arena → Heap × Arena
  drain options heap slot =
      if Buddy.is_empty slot.buddy
      then (
        (if options.debug then heap else os.advise_dont_need heap slot.buddy.arena_base max_block),
        record slot { drained = true; idle_ticks = 0 },
      )
      else (heap, slot)

  unfoldable pub free : Options → Heap → List Arena → ℕ → Heap × List Arena × Bool
  free options heap arenas ptr =
      if ptr == 0 then (heap, arenas, false) else elim (find_owning_arena arenas ptr) [
        | absent ↦ (heap, arenas, false)
        | found slot put_back ↦
            (let size = Buddy.block_size slot.buddy ptr in
              let buddy' =
                if options.deferred_coalesce
                then Buddy.free_no_coalesce slot.buddy ptr size
                else Buddy.free slot.buddy ptr size in
              let (heap', slot') = drain options heap (record slot { buddy = buddy' }) in
              if size == 0 then (heap, arenas, false) else (heap', put_back slot', true))
      ]

  unfoldable pub sweep_idle : ℕ → Heap → List Arena → Heap × List Arena × ℕ
  sweep_idle max_idle_ticks heap [] = (heap, [], 0)
  sweep_idle max_idle_ticks heap (slot ∷ rest) =
      let (slot', released) = sweep_slot max_idle_ticks slot in
      let heap' =
        if released then os.page_heap_free heap slot.buddy.arena_base max_block else heap in
      let later = sweep_idle max_idle_ticks heap' rest in
      (later.0, slot' ∷ later.1, (if released then 1 else 0) + later.2)

  unfoldable pub destroy : Heap → List Arena → Heap × List Arena
  destroy heap [] = (heap, [])
  destroy heap (slot ∷ rest) =
      let heap' =
        if slot.in_use then os.page_heap_free heap slot.buddy.arena_base max_block else heap in
      let later = destroy heap' rest in (later.0, record slot { in_use = false } ∷ later.1)

unfoldable pub block_size : List Arena → ℕ → ℕ
block_size arenas ptr = if ptr == 0 then 0 else elim (find_owning_arena arenas ptr) [
  | absent ↦ 0
  | found slot put_back ↦ Buddy.block_size slot.buddy ptr
]

pub record ArenaStats : Type 0 where
  pub live : ℕ
  pub drained : ℕ
  pub total_in_use : ℕ

unfoldable pub get_arena_stats : List Arena → ArenaStats
get_arena_stats [] = record { live = 0; drained = 0; total_in_use = 0 }
get_arena_stats (slot ∷ rest) =
    let s = get_arena_stats rest in
    if not slot.in_use
    then s
    else if slot.drained
    then record s { drained = s.drained + 1; total_in_use = s.total_in_use + 1 }
    else record s { live = s.live + 1; total_in_use = s.total_in_use + 1 }

-- The number of violations.
unfoldable pub validate : List Arena → ℕ
validate [] = 0
validate (slot ∷ rest) =
    (if slot.drained && not slot.in_use then 1 else 0)
    + (if slot.in_use && (slot.buddy.arena_base == 0) then 1 else 0)
    + validate rest
