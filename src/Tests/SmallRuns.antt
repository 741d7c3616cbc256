-- ===== src/Tests/SmallRuns.antt =====
-- Runs of the small slab pages.
use v8malloc.Prelude.{◌+◌, ◌*◌, ◌≤◌, ◌≡◌, refl, [], ◌∷◌, arith, ◌==◌, if◌then◌else◌}
use v8malloc.Words.{wrap16}
use v8malloc.SizeClass.{class_to_size, size_class_size}
use v8malloc.Slab.Small.{SmallMeta, Memory, init, alloc, free, data_offset}
use v8malloc.Slab.Small.Init.{init-IsSmall, slots_from}
use v8malloc.Slab.Small.Laws.{IsSmall, slot_address, pops_slot, pushes_slot}

abbrev blank : Memory
blank = λ a. 0

small_sized : 8 ≤ wrap16 (size_class_size class_to_size 8)
unfolding size_class_size
small_sized = omega arith

init-IsSmall_example :
    IsSmall 65536
      (init class_to_size 65536 blank 8 7 3).0
      (init class_to_size 65536 blank 8 7 3).1
      (slots_from 0 (init class_to_size 65536 blank 8 7 3).1.capacity)
init-IsSmall_example =
    init-IsSmall class_to_size 65536 blank 8 7 3 (omega arith) (omega arith) small_sized

-- Three slots of 4 KiB; slots 2 and 0 are free, in this order.
abbrev page : SmallMeta
page = record {
  magic = 0;
  size_class = 31;
  object_size = 4096;
  capacity = 3;
  used_count = 1;
  owner_thread = 7;
  free_list_head = 65536 + 4096 + 2 * 4096;
  next = 0;
  arena_id = 0;
  owner_cpu = 0;
}

abbrev links : Memory
links a = if a == 65536 + 4096 + 2 * 4096 then 65536 + 4096 else 0

page-IsSmall : IsSmall 65536 links page (2 ∷ 0 ∷ [])
unfolding data_offset
page-IsSmall = record {
  based = omega arith;
  room = omega arith;
  sized = omega arith;
  fits = omega arith;
  bounded = omega arith;
  chain = (refl, (refl, refl));
  slots = (omega arith, ((λ e. omega arith), tt), (omega arith, tt, tt));
  counted = refl;
}

pops_slot_example :
    ((alloc links page).1 ≡ slot_address 65536 4096 2)
    × IsSmall 65536 links (alloc links page).0 (0 ∷ [])
pops_slot_example = pops_slot 65536 links page 2 (0 ∷ []) page-IsSmall

pushes_slot_example :
    IsSmall 65536
      (free links page (slot_address 65536 4096 1)).0
      (free links page (slot_address 65536 4096 1)).1
      (1 ∷ 2 ∷ 0 ∷ [])
    × ((free links page (slot_address 65536 4096 1)).2 ≡ (page.used_count == 1))
pushes_slot_example =
    pushes_slot 65536 links page 1 (2 ∷ 0 ∷ []) page-IsSmall (omega arith)
      ((λ e. omega arith), ((λ e. omega arith), tt)) (omega arith)

abbrev full_page : SmallMeta
full_page = record page { used_count = 3; free_list_head = 0 }

full_page-IsSmall : IsSmall 65536 links full_page []
unfolding data_offset
full_page-IsSmall = record {
  based = omega arith;
  room = omega arith;
  sized = omega arith;
  fits = omega arith;
  bounded = omega arith;
  chain = refl;
  slots = tt;
  counted = refl;
}
