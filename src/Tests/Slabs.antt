-- ===== src/Tests/Slabs.antt =====
-- Runs of the slab pages.
use v8malloc.Prelude.{ℕ, ◌<◌, ◌≡◌, refl, true, false, arith, ◌==◌}
use v8malloc.Words.{wrap16}
use v8malloc.SizeClass.{class_to_size, size_class_size}
use v8malloc.Slab.Tiny.{TinyMeta, init, alloc, free, capacity_for}
use v8malloc.Slab.Tiny.Bitmap.{marked, marked-mark}
use v8malloc.Slab.Tiny.Inv.{IsTiny}
use v8malloc.Slab.Tiny.Init.{init-IsTiny}
use v8malloc.Slab.Tiny.Laws.{
  Outcome, taken, taken-IsTiny, returned, slot_address, claims_free_slot, frees_used_slot,
}

-- A page of 8 byte objects: 7936 of them.
abbrev tiny : TinyMeta
tiny = init class_to_size 0 7 3

tiny_sized : 0 < wrap16 (size_class_size class_to_size 0)
unfolding size_class_size
tiny_sized = omega arith

init-IsTiny_example :
    IsTiny 65536 (init class_to_size 0 7 3)
    × ((slot : ℕ)
        → slot < (init class_to_size 0 7 3).capacity
        → marked (init class_to_size 0 7 3).bitmap slot ≡ false)
init-IsTiny_example = init-IsTiny class_to_size 65536 0 7 3 (omega arith) tiny_sized

tiny-IsTiny : IsTiny 65536 tiny
tiny-IsTiny = (init-IsTiny class_to_size 65536 0 7 3 (omega arith) tiny_sized).0

claims_free_slot_example : Outcome 65536 tiny (alloc 65536 tiny)
claims_free_slot_example = claims_free_slot 65536 tiny tiny-IsTiny

tiny_slots : tiny.capacity ≡ 7936
unfolding init size_class_size capacity_for
tiny_slots = refl

-- The page with slot 5 in use.
used-IsTiny : IsTiny 65536 (taken tiny 5)
used-IsTiny =
    let clear = (init-IsTiny class_to_size 65536 0 7 3 (omega arith) tiny_sized).1 in
    taken-IsTiny 65536 tiny tiny-IsTiny 5 (omega (arith, tiny_slots))
      (clear 5 (omega (arith, tiny_slots)))

used_slot : marked (taken tiny 5).bitmap 5 ≡ true
used_slot =
    let words = tiny-IsTiny.words in ground (arith, marked-mark tiny.bitmap 5 (omega arith) 5)

frees_used_slot_example :
    (free 65536 (taken tiny 5) (slot_address 65536 (taken tiny 5) 5)
      ≡ (returned (taken tiny 5) 5, (taken tiny 5).used_count == 1))
    × IsTiny 65536 (returned (taken tiny 5) 5)
frees_used_slot_example =
    frees_used_slot 65536 (taken tiny 5) 5 used-IsTiny (omega (arith, tiny_slots)) used_slot
