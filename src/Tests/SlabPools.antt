-- ===== src/Tests/SlabPools.antt =====
-- Runs of a slab pool.
use v8malloc.Prelude.{
  ℕ, ◌+◌, ◌≡◌, ◌≢◌, refl, sym, ap, subst, inl, inr, false, [], ◌∷◌, arith, update,
}
use v8malloc.PageSource.{PageSource}
use v8malloc.NumaPool.{DescSource}
use v8malloc.Slab.Small.{SmallMeta, data_offset, is_full}
use v8malloc.Slab.Small.Laws.{IsSmall}
use v8malloc.SlabPool.{Class, Pool, Source, init, set_class, try_partials}
use v8malloc.SlabPool.Dispatch.{Page, small, slab_is_full_dispatch}
use v8malloc.SlabPool.Lists.{Among, IsClass, IsListed, set_class-IsListed}
use v8malloc.SlabPool.InUse.{IsInUse}
use v8malloc.SlabPool.Alloc.{IsSlab, partial_page_serves}

abbrev no_memory : PageSource ℕ
no_memory = record {
  page_heap_alloc = λ heap size alignment. (heap, 0);
  page_heap_free = λ heap region size. heap;
  advise_dont_need = λ heap region size. heap;
}

abbrev no_descriptors : DescSource ℕ
no_descriptors = record { desc_alloc = λ heap. (heap, false); desc_free = λ heap. heap }

abbrev source : Source ℕ
source = record { heap = 0; numa_pool = []; numa_ready = false }

-- A page with three objects of 4 KiB, all in use.
abbrev full_meta : SmallMeta
full_meta = record {
  magic = 0;
  size_class = 31;
  object_size = 4096;
  capacity = 3;
  used_count = 3;
  owner_thread = 7;
  free_list_head = 0;
  next = 0;
  arena_id = 0;
  owner_cpu = 0;
}

abbrev full_page : Page
full_page = small full_meta (λ a. 0)

-- The page is full and on no list.
abbrev pool : Pool
pool = init (λ a. full_page)

-- The page with its object 1 free, on the partial list of its class.
abbrev open_meta : SmallMeta
open_meta = record full_meta { used_count = 2; free_list_head = 65536 + 4096 + 4096 }

abbrev open_page : Page
open_page = small open_meta (λ a. 0)

abbrev partial_class : Class
partial_class = record { current = 0; partials = 65536 ∷ [] }

abbrev open_pool : Pool
open_pool = set_class (init (λ a. open_page)) 31 partial_class

empty-IsListed : IsListed (init (λ a. open_page))
unfolding init
empty-IsListed cls = record {
  once = tt;
  apart = λ h. h;
  sound = λ page h. elim h [ ];
  classed = λ page h. elim h [ ];
  open_page = λ page h. elim h [ ];
  current_class = λ h. absurd (omega arith);
}

open_page_open : slab_is_full_dispatch open_page ≡ false
unfolding slab_is_full_dispatch is_full
open_page_open = refl

partial-IsClass : IsClass (λ a. open_page) 31 partial_class
partial-IsClass = record {
  once = (λ h. h, tt);
  apart = λ h. elim h [ inl z ↦ omega (arith, z) | inr nowhere ↦ nowhere ];
  sound = λ page h. elim h [ inl e ↦ omega arith | inr nowhere ↦ absurd nowhere ];
  classed = λ page h. refl;
  open_page = λ page h. open_page_open;
  current_class = λ h. absurd (omega arith);
}

open_pool-IsListed : IsListed open_pool
unfolding init
open_pool-IsListed =
    set_class-IsListed (init (λ a. open_page)) 31 partial_class empty-IsListed partial-IsClass

open_meta-IsSmall : IsSmall 65536 (λ a. 0) open_meta (1 ∷ [])
unfolding data_offset
open_meta-IsSmall = record {
  based = omega arith;
  room = omega arith;
  sized = omega arith;
  fits = omega arith;
  bounded = omega arith;
  chain = (refl, refl);
  slots = (omega arith, tt, tt);
  counted = refl;
}

at_class : open_pool.classes 31 ≡ partial_class
unfolding init update
at_class = refl

open_slabs :
    (page : ℕ) → Among page (open_pool.classes 31).partials → IsSlab page (open_pool.pages page)
unfolding init update
open_slabs page h = elim h [
  | inl e ↦ subst (λ x. IsSlab x open_page) (sym e) (1 ∷ [], open_meta-IsSmall)
  | inr nowhere ↦ absurd nowhere
]

partial_page_serves_example :
    let r = try_partials 1 open_pool 31 in
    let page = (r.0.classes 31).current in
    (r.1 ≢ 0)
    × IsListed r.0
    × Among page (open_pool.classes 31).partials
    × IsSlab page (r.0.pages page)
    × IsInUse page (r.0.pages page) r.1
partial_page_serves_example =
    partial_page_serves open_pool 31 0 65536 [] open_pool-IsListed open_slabs
      (ap Class.partials at_class)
