-- ===== src/SlabPool/Dispatch.antt =====
-- The page of a slab pool in src/v8m_slab_pool.c: a tiny or a small one, by its size class, and the
-- functions that choose between the two.
use v8malloc.Prelude.{ℕ, Bool, ltb, if◌then◌else◌}
use v8malloc.SizeClass.{Table}
use v8malloc.Slab.Tiny.{TinyMeta}
use v8malloc.Slab.Small.{SmallMeta, Memory}
use v8malloc.Slab.Tiny
use v8malloc.Slab.Small

-- V8M_SMALL_FIRST_CLASS
abbrev pub small_first_class : ℕ
small_first_class = 8

-- A small page carries the links in its free objects. Which of the two a page is is fixed when it is set up,
-- where its class is below `small_first_class` or not; Kind compares the constructor with that test.
pub data Page : Type 0 where
  tiny : (meta : TinyMeta) → Page
  small : (meta : SmallMeta) (mem : Memory) → Page

abbrev pub used_count : Page → ℕ
used_count (tiny meta) = meta.used_count
used_count (small meta mem) = meta.used_count

abbrev pub capacity : Page → ℕ
capacity (tiny meta) = meta.capacity
capacity (small meta mem) = meta.capacity

abbrev pub size_class_of : Page → ℕ
size_class_of (tiny meta) = meta.size_class
size_class_of (small meta mem) = meta.size_class

unfoldable pub slab_alloc_dispatch : ℕ → Page → Page × ℕ
slab_alloc_dispatch page (tiny meta) = let (meta', obj) = Tiny.alloc page meta in (tiny meta', obj)
slab_alloc_dispatch page (small meta mem) =
    let (meta', obj) = Small.alloc mem meta in (small meta' mem, obj)

unfoldable pub slab_free_dispatch : ℕ → Page → ℕ → Page × Bool
slab_free_dispatch page (tiny meta) obj =
    let (meta', empty) = Tiny.free page meta obj in (tiny meta', empty)
slab_free_dispatch page (small meta mem) obj =
    let (mem', meta', empty) = Small.free mem meta obj in (small meta' mem', empty)

unfoldable pub slab_is_full_dispatch : Page → Bool
slab_is_full_dispatch (tiny meta) = Tiny.is_full meta
slab_is_full_dispatch (small meta mem) = Small.is_full meta

-- `mem` is what the memory of the page holds before.
unfoldable pub slab_init_dispatch : Table → ℕ → ℕ → Memory → ℕ → ℕ → Page
slab_init_dispatch table current_cpu page mem size_class owner_thread =
    let (linked, meta) = Small.init table page mem size_class owner_thread current_cpu in
    if ltb size_class small_first_class
    then tiny (Tiny.init table size_class owner_thread current_cpu)
    else small meta linked

abbrev pub with_arena : Page → ℕ → Page
with_arena (tiny meta) arena_id = tiny (record meta { arena_id = arena_id })
with_arena (small meta mem) arena_id = small (record meta { arena_id = arena_id }) mem
