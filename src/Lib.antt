-- ===== src/Lib.antt =====
-- v8malloc, a memory allocator for Linux: a model of its allocation structures and the theorems that make
-- them correct. Numbers are the native natural numbers; a w-bit word is a number whose wrap-around is
-- written out; an address is a number and NULL is 0.
--
-- The parts, from the bottom up, and the files that model them:
--   Words: machine words, their bits, and the compiler's bit scans.
--   SizeClass: src/v8m_size_class.h and .c. `size_class` is `v8m_size_class`.
--   Bump: src/v8m_bump.c and src/v8m_bootstrap.c, the allocator of the first calls.
--   RegionMap: the table of mapped ranges in src/v8m_page_heap.c. The dispatcher asks it whether a pointer
--     is the allocator's own before it frees it. Writers hold a lock, so each of them is one step;
--     the reader without the lock sees the views that its environment chooses.
--   Buddy: src/v8m_buddy.c, the blocks of 4 KiB to 256 KiB. The invariant says that free and allocated
--     blocks tile the arena; Buddy/History follows every history of calls.
--     Buddy/Coalesce is the sweep of the deferred mode.
--   PageSource: what the pools call of the page heap, as an interface, with what it promises.
--   BuddyPool: src/v8m_buddy_pool.c, up to 256 arenas of the buddy allocator over the page heap.
--   HugeSlab: src/v8m_huge_slab.c, the slabs of a huge page.
--   NumaPool: src/v8m_numa_pool.c, the huge pages of each memory node. Its pages are HugeSlab's; the page heap
--     and the memory of the descriptors are interfaces.
--   Slab: src/v8m_page.h and the pages of one object size, Slab/Tiny for src/v8m_slab_tiny.c with its
--     bitmap, Slab/Small for src/v8m_slab_small.c with its free list.
--   SlabPool: src/v8m_slab_pool.c, the tiny and small pages of a pool on the lists of their classes; its fresh
--     pages come from NumaPool or the page heap.
--   LargeCache and Large: src/v8m_large.c, the regions of single allocations and the cache of freed ones.
--     The page heap is an interface there, `PageHeap`, with what it promises as `IsPageHeap`.
--   Anchor: src/v8m_anchor_reservation.c, ranges carved from one reservation of addresses.
--   CoreCache: src/v8m_core_cache.h and .c, for each processor and class a stack of free objects without a
--     lock. The calls alone stand in CoreCache; CoreCache/Race has push and pop of many threads as
--     interleavings of their single loads, writes and compare-exchanges.
--   Refill: src/v8m_refill_controller.c, the batch size of the thread caches.
--   Config: src/v8m_config.h and .c, the options; the pools read two of them, as `Options`.
--   Thp: src/v8m_thp.c, the advice of the page heap on huge pages.
--   Tests: concrete runs, and each theorem at a concrete input.
--
-- Loops are structural recursion on the number of rounds left: the levels of the buddy arena, the words
-- of a bitmap, the width of the range of a binary search. That width is enough for the search is part of
-- its lemma. The walk of the deferred merging has the length of the free list as its fuel: a merge makes the
-- list shorter. The retries of a compare-exchange are steps of the thread, without a bound.
-- The tag of a stack head has 16 bits: in the interleavings a thread goes on only while the head has changed
-- less than 2^16 times since the thread loaded it.
--
-- Not modelled: the clock, `mmap` and the other system calls, the poisoning of the debug mode, the memory
-- order of single atomic operations, and the parts listed as such in the manifest.
pub mod Prelude
pub mod Words
pub mod SizeClass
pub mod HugeSlab
pub mod Bump
pub mod Refill
pub mod Buddy
pub mod Slab
pub mod RegionMap
pub mod Tests
pub mod LargeCache
pub mod Large
pub mod Anchor
pub mod Thp
pub mod CoreCache
pub mod NumaPool
pub mod PageSource
pub mod BuddyPool
pub mod SlabPool
pub mod Config
