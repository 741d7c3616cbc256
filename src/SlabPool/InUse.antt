-- ===== src/SlabPool/InUse.antt =====
-- An object in use on a page of a slab pool, and what its release does to the page.
use v8malloc.Prelude.{ℕ, ◌<◌, ◌≡◌, refl, sym, subst, Bool, true, false, List, ◌==◌, arith, ne→==}
use v8malloc.Slab.Tiny.{is_full}
use v8malloc.Slab.Small.{is_full as is_full_small, free as free_small}
use v8malloc.Slab.Tiny.Bitmap.{marked}
use v8malloc.Slab.Tiny.Inv.{IsTiny, total-le}
use v8malloc.Slab.Tiny.Laws.{slot_address, frees_used_slot}
use v8malloc.Slab.Small.Laws.{IsSmall, IsAbsent, slot_address as small_address, pushes_slot}
use v8malloc.SlabPool.Dispatch.{
  Page, tiny, small, used_count, size_class_of, slab_free_dispatch, slab_is_full_dispatch,
}

-- The object at `obj` is a slot in use of the page at `page`, which satisfies its invariant.
abbrev pub IsInUse : ℕ → Page → ℕ → Type 0
IsInUse page (tiny meta) obj =
    (slot : ℕ) × IsTiny page meta
    × (slot < meta.capacity)
    × (marked meta.bitmap slot ≡ true)
    × (obj ≡ slot_address page meta slot)
IsInUse page (small meta mem) obj =
    (slot : ℕ) × (frees : List ℕ) × IsSmall page mem meta frees
    × (slot < meta.capacity)
    × IsAbsent slot frees
    × (0 < meta.used_count)
    × (obj ≡ small_address page meta.object_size slot)

-- The page has a free slot and its old class, and the result says whether the object was the last one.
pub record IsFreedOf (p : Page) (r : Page × Bool) : Type 0 where
  pub open_page : slab_is_full_dispatch r.0 ≡ false
  pub same_class : size_class_of r.0 ≡ size_class_of p
  pub emptied : r.1 ≡ (used_count p == 1)

pub free_dispatch_lem :
    (page : ℕ) (p : Page) (obj : ℕ)
    → IsInUse page p obj
    → IsFreedOf p (slab_free_dispatch page p obj)
unfolding slab_free_dispatch slab_is_full_dispatch is_full is_full_small free_small
free_dispatch_lem page (tiny meta) obj (slot, v, below, used, place) =
    let freed = frees_used_slot page meta slot v below used in
    let bound = total-le meta.bitmap in
    let words = v.words in
    let counted = v.counted in
    let cap = v.bounded in
    subst (λ a. IsFreedOf (tiny meta) (slab_free_dispatch page (tiny meta) a)) (sym place)
      (rw freed.0
        (record { open_page = ne→== _ _ (λ e. omega arith); same_class = refl; emptied = refl }))
free_dispatch_lem page (small meta mem) obj (slot, frees, v, below, absent, some_used, place) =
    let freed = pushes_slot page mem meta slot frees v below absent some_used in
    let counted = freed.0.counted in
    subst (λ a. IsFreedOf (small meta mem) (slab_free_dispatch page (small meta mem) a)) (sym place)
      (record { open_page = ne→== _ _ (λ e. omega arith); same_class = refl; emptied = freed.1 })
