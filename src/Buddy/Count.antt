-- ===== src/Buddy/Count.antt =====
-- How often an address stands on a free list, and what the writes to a bitmap do to its bits.
use v8malloc.Prelude.{ℕ, ◌+◌, ◌<◌, ◌≡◌, not, ◌&&◌, ◌||◌, List, [], ◌∷◌, arith, ◌==◌, if◌then◌else◌}
use v8malloc.Words.{test_bit, set_bit, clear_bit}
use v8malloc.Words.Bits.{
  test_bit-set_bit_self, test_bit-set_bit_ne, test_bit-clear_bit_self, test_bit-clear_bit_ne,
}
use v8malloc.Buddy.{erase}

unfoldable pub count : ℕ → List ℕ → ℕ
count a [] = 0
count a (x ∷ xs) = (if x == a then 1 else 0) + count a xs

pub count-erase :
    (a c : ℕ) (xs : List ℕ)
    → 0 < count a xs
    → count c (erase a xs) + (if a == c then 1 else 0) ≡ count c xs
unfolding count erase
count-erase a c [] h = absurd (omega arith)
count-erase a c (x ∷ xs) h = ground (arith, count-erase a c xs)

pub test_bit-set_bit : (n i j : ℕ) → test_bit (set_bit n i) j ≡ (test_bit n j || j == i)
test_bit-set_bit n i j = ground (arith, test_bit-set_bit_self n i, test_bit-set_bit_ne n i j)

pub test_bit-clear_bit : (n i j : ℕ) → test_bit (clear_bit n i) j ≡ (test_bit n j && not (j == i))
test_bit-clear_bit n i j = ground (arith, test_bit-clear_bit_self n i, test_bit-clear_bit_ne n i j)
