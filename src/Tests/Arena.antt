-- ===== src/Tests/Arena.antt =====
-- Runs of the buddy allocator.
use v8malloc.Prelude.{ℕ, ◌≡◌, ◌⊎◌, refl, true, false, not, ◌&&◌, [], arith, ◌==◌}
use v8malloc.Words.{test_bit, msb}
use v8malloc.Words.Bits.{test_bit-zero}
use v8malloc.Words.Mask.{test_bit-ones}
use v8malloc.Buddy.{
  Buddy, max_block, update, init, alloc, free, size_to_level, level_to_size, block_size,
}
use v8malloc.Buddy.Geometry.{addr, shr}
use v8malloc.Buddy.Count.{count}
use v8malloc.Buddy.Tiling.{at}
use v8malloc.Buddy.Inv.{IsArena, IsTiling-eq, nothing}
use v8malloc.Buddy.Alloc.Outcome.{Exhausted, Outcome, served_or_refused}
use v8malloc.Buddy.Free.{frees_allocated_block}
use v8malloc.Buddy.Query.{whole-IsTiling, init-IsArena, block_size_lem}

abbrev fresh : Buddy
fresh = init 65536

fresh-IsArena : IsArena fresh nothing
fresh-IsArena = init-IsArena 65536 (omega arith) (omega arith)

served_or_refused_example :
    ((alloc fresh 5000 ≡ (fresh, 0)) × Exhausted fresh 5000)
    ⊎ Outcome fresh 5000 (alloc fresh 5000).0 (alloc fresh 5000).1
served_or_refused_example = served_or_refused fresh 5000 fresh-IsArena (omega arith) (omega arith)

-- The whole arena is one allocated block.
abbrev taken : Buddy
taken = record {
  arena_base = 65536;
  arena_size = max_block;
  free_lists = λ level. [];
  alloc_bitmap = λ level. update (λ l. 0) 6 1 level;
  split_bitmap = λ level. 0;
}

taken-IsArena : IsArena taken nothing
unfolding update count
taken-IsArena = record {
  place = record { based = omega arith; room = omega arith; size = refl };
  tiled =
      IsTiling-eq (at 6 0) _ (λ l j. false) _ whole-IsTiling
        (λ l j hl. ground (arith, test_bit-zero j, test_bit-ones 1 j)) (λ l j. test_bit-zero j);
  blocks = λ l h. tt;
}

top_level : size_to_level 262144 ≡ 6
unfolding size_to_level msb
top_level = refl

taken_bit :
    test_bit (taken.alloc_bitmap (size_to_level 262144)) (shr 9 (size_to_level 262144)) ≡ true
unfolding size_to_level update shr test_bit msb
taken_bit = refl

frees_allocated_block_example :
    IsArena
      (free taken (addr 65536 (size_to_level 262144) (shr 9 (size_to_level 262144))) 262144)
      nothing
    × ((l j : ℕ)
        → test_bit
            ((free taken
                (addr 65536 (size_to_level 262144) (shr 9 (size_to_level 262144)))
                262144).alloc_bitmap
              l)
            j
          ≡ (test_bit (taken.alloc_bitmap l) j
              && not (l == size_to_level 262144 && j == shr 9 (size_to_level 262144))))
frees_allocated_block_example =
    frees_allocated_block taken 262144 9 taken-IsArena (omega (arith, top_level)) (omega arith)
      taken_bit

top_bit : test_bit (taken.alloc_bitmap 6) (shr 9 6) ≡ true
unfolding update shr test_bit
top_bit = refl

block_size_lem_example : block_size taken (addr 65536 6 (shr 9 6)) ≡ level_to_size 6
block_size_lem_example = block_size_lem taken taken-IsArena 6 9 (omega arith) (omega arith) top_bit
