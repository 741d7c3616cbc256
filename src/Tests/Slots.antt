-- ===== src/Tests/Slots.antt =====
-- Runs of the huge slab, of the bump allocator and of the anchor reservation.
use v8malloc.Prelude.{ℕ, ◌+◌, ◌*◌, ◌^◌, ◌⊎◌, ◌≤◌, ◌≡◌, refl, true, false, some, [], ◌∷◌, arith}
use v8malloc.Words.{test_bit, clear_bit, bits_and}
use v8malloc.HugeSlab.{HugeSlab, page_size, free_index, is_full, live_count, valid_mask}
use v8malloc.HugeSlab
use v8malloc.HugeSlab.Laws.{IsValid, free_twice}
use v8malloc.Bump.{Bump, round_up, run}
use v8malloc.Bump
use v8malloc.Bump.Laws.{alloc_in_buffer, run-Separated, Separated}
use v8malloc.Bump.Laws as BumpLaws
use v8malloc.Anchor.{Anchor}
use v8malloc.Anchor
use v8malloc.Anchor.Laws.{IsAnchor, IsCarved, inside_or_refused}

-- Slots 0 and 2 of four are live.
abbrev slab : HugeSlab
slab = record { base = 2097152; bitmap = 5; numa_node = 0; slabs_per_huge = 4; next = 0 }

abbrev full_slab : HugeSlab
full_slab = record slab { bitmap = 15 }

slab-IsValid : IsValid slab
slab-IsValid = record {
  based = omega arith;
  room = omega arith;
  some_slots = omega arith;
  slots = omega arith;
  bits = omega arith;
}

slab_open : is_full (some slab) ≡ false
unfolding is_full valid_mask bits_and
slab_open = refl

abbrev slot : ℕ
slot = free_index slab

slab_freed :
    HugeSlab.free (some slab) (2097152 + 2 * 65536) ≡ (some (record slab { bitmap = 1 }), true)
unfolding HugeSlab.free bits_and test_bit clear_bit
slab_freed = refl

free_twice_example :
    HugeSlab.free (some (record slab { bitmap = 1 })) (2097152 + 2 * 65536)
    ≡ (some (record slab { bitmap = 1 }), false)
free_twice_example = free_twice slab (record slab { bitmap = 1 }) (2097152 + 2 * 65536) slab_freed

slab_full : is_full (some full_slab) ≡ true
unfolding is_full valid_mask bits_and
slab_full = refl

abbrev buffer : Bump
buffer = record { buffer = 4096; size = 256; align = 16; offset = 32 }

buffer-IsValid : BumpLaws.IsValid 4 buffer
buffer-IsValid = record {
  based = omega arith;
  room = omega arith;
  half = omega arith;
  power = refl;
  fine = omega arith;
}

buffer_taken : Bump.alloc (some buffer) 20 ≡ (some (record buffer { offset = 64 }), 4128)
unfolding Bump.alloc round_up bits_and
buffer_taken = refl

alloc_in_buffer_example :
    (4128 ≡ buffer.buffer + buffer.offset)
    × (4128 + 20 ≤ buffer.buffer + buffer.size)
    × (buffer.offset + 20 ≤ 64)
    × BumpLaws.IsValid 4 (record buffer { offset = 64 })
alloc_in_buffer_example =
    alloc_in_buffer buffer (record buffer { offset = 64 }) 20 4128 buffer-IsValid buffer_taken
      (λ e. omega arith)

run-Separated_example : Separated (run buffer (20 ∷ 500 ∷ 100 ∷ 0 ∷ []))
run-Separated_example = run-Separated buffer (20 ∷ 500 ∷ 100 ∷ 0 ∷ []) buffer-IsValid (omega arith)

abbrev anchor : Anchor
anchor = record {
  base = 1048576;
  cap = 8388608;
  bump_offset = 4096;
  carve_calls = 1;
  carve_failures = 0;
  release_calls = 0;
}

anchor-IsAnchor : IsAnchor anchor
anchor-IsAnchor = record { based = omega arith; room = omega arith; used = omega arith }

inside_or_refused_example :
    (((Anchor.carve true anchor 2097152 (2 ^ 21)).1 ≡ 0)
      × ((Anchor.carve true anchor 2097152 (2 ^ 21)).0.bump_offset ≡ anchor.bump_offset)
      × IsAnchor (Anchor.carve true anchor 2097152 (2 ^ 21)).0)
    ⊎ IsCarved anchor 2097152
        (2 ^ 21)
        (Anchor.carve true anchor 2097152 (2 ^ 21)).0
        (Anchor.carve true anchor 2097152 (2 ^ 21)).1
inside_or_refused_example =
    inside_or_refused true anchor 2097152 21 anchor-IsAnchor (omega arith) (omega arith)
