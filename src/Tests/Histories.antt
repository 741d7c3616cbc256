-- ===== src/Tests/Histories.antt =====
-- A history of the buddy allocator: three blocks are handed out and the second one is freed.
use v8malloc.Prelude.{◌+◌, ◌≡◌, refl, [], ◌∷◌, arith}
use v8malloc.Words.{msb}
use v8malloc.Buddy.{
  Buddy, init, alloc, free, update, size_to_level, level_to_size, addr_to_index, index_to_node,
  find_level, split_down, list_push, mark_split, mark_alloc,
}
use v8malloc.Buddy.Reach.{new_block}
use v8malloc.Buddy.History.{History, start, served, freed, here, there, AllApart, live_blocks_apart}

abbrev first : Buddy
first = (alloc (init 65536) 5000).0

abbrev second : Buddy
second = (alloc first 100).0

first_address : (alloc (init 65536) 5000).1 ≡ 65536
unfolding alloc init update size_to_level find_level msb
first_address = refl

second_address : (alloc first 100).1 ≡ 65536 + 8192
unfolding alloc init update size_to_level find_level msb split_down list_push mark_split mark_alloc
    index_to_node level_to_size addr_to_index
second_address = refl

third_address : (alloc second 70000).1 ≡ 65536 + 131072
unfolding alloc init update size_to_level find_level msb split_down list_push mark_split mark_alloc
    index_to_node level_to_size addr_to_index
third_address = refl

abbrev last : Buddy
last = free (alloc second 70000).0 (alloc first 100).1 100

abbrev calls : History 65536 last (new_block second 70000 ∷ new_block (init 65536) 5000 ∷ [])
calls =
    freed
      (served
        (served (served start 5000 (omega arith) (omega arith) (λ e. omega (arith, first_address)))
          100 (omega arith) (omega arith) (λ e. omega (arith, second_address)))
        70000 (omega arith) (omega arith) (λ e. omega (arith, third_address)))
      (there here)

live_blocks_apart_example : AllApart (new_block second 70000 ∷ new_block (init 65536) 5000 ∷ [])
live_blocks_apart_example =
    live_blocks_apart 65536 last (new_block second 70000 ∷ new_block (init 65536) 5000 ∷ []) calls
      (omega arith) (omega arith)
