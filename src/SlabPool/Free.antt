-- ===== src/SlabPool/Free.antt =====
-- What `v8m_slab_pool_free` does to the lists of a pool.
use v8malloc.Prelude.{ℕ, ◌<◌, ◌≡◌, ◌≢◌, ◌⊎◌, Bool, true, false, ◌∷◌, leb, arith}
use v8malloc.PageSource.{PageSource}
use v8malloc.NumaPool.{DescSource}
use v8malloc.SlabPool.{
  Class, Pool, Source, set_class, write_page, unlink_from_class, release_slab_page, free,
  medium_first_class,
}
use v8malloc.SlabPool.Dispatch.{
  Page, used_count, size_class_of, slab_free_dispatch, slab_is_full_dispatch,
}
use v8malloc.SlabPool.InUse.{IsInUse, IsFreedOf, free_dispatch_lem}
use v8malloc.SlabPool.Lists.{Among, IsListed, IsOnList}

-- The page stands on no list.
abbrev pub IsOff : Pool → ℕ → Type 0
IsOff pool page =
    (cls : ℕ) → ((pool.classes cls).current ≢ page) × (Among page (pool.classes cls).partials → ⊥)

-- How a free ends: the page was emptied and is on no list, or it stands on its list.
abbrev pub Outcome : Pool → ℕ → Pool → Bool → Type 0
Outcome pool page pool' empty =
    IsListed pool'
    × (((empty ≡ true) × (used_count (pool.pages page) ≡ 1) × IsOff pool' page)
        ⊎ ((empty ≡ false)
            × (((slab_is_full_dispatch (pool.pages page) ≡ true) ⊎ IsOnList pool page)
                → IsOnList pool' page)))

module _ {Heap : Type 0} (os : PageSource Heap) (descs : DescSource Heap) where
  module _ (src : Source Heap) (pool : Pool) (page obj : ℕ) (v : IsListed pool) (pos : 0 < page)
      (used : IsInUse page (pool.pages page) obj)
      (served : size_class_of (pool.pages page) < medium_first_class) where
    abbrev p : Page
    p = (slab_free_dispatch page (pool.pages page) obj).0

    abbrev empty : Bool
    empty = (slab_free_dispatch page (pool.pages page) obj).1

    abbrev freed : Pool
    freed = write_page pool page p

    abbrev cls : ℕ
    cls = size_class_of p

    change : IsFreedOf (pool.pages page) (slab_free_dispatch page (pool.pages page) obj)
    change = free_dispatch_lem page (pool.pages page) obj used

    abbrev c : Class
    c = pool.classes cls

    -- The page is emptied.
    abbrev without : Pool
    without = set_class freed cls (unlink_from_class c page)

    -- The page was full and goes to the front of the partial pages.
    abbrev pushed : Pool
    pushed = set_class freed cls (record c { partials = page ∷ c.partials })

    small_class : leb medium_first_class cls ≡ false
    small_class = let e = change.same_class in ground arith

    abbrev result : Source Heap × Pool × Bool
    result = free os descs src pool page obj

    abbrev released : Source Heap × Pool
    released = release_slab_page os descs src without page
