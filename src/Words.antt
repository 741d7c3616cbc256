-- ===== src/Words.antt =====
-- Machine words as native numbers: the C operators and compiler builtins that the allocator uses.
pub mod Bits
pub mod Scan
pub mod Mask
use v8malloc.Prelude.{
  ℕ, zero, suc, ◌+◌, ◌-◌, ◌*◌, ◌/◌, ◌%◌, ◌^◌, Bool, true, false, min, ◌==◌, if◌then◌else◌,
}

-- Arithmetic of `size_t`, `uintptr_t` and `uint64_t`, and of `uint32_t` and `uint16_t`.
abbrev pub wrap64 : ℕ → ℕ
wrap64 n = n % 2 ^ 64

abbrev pub wrap32 : ℕ → ℕ
wrap32 n = n % 2 ^ 32

abbrev pub wrap16 : ℕ → ℕ
wrap16 n = n % 2 ^ 16

-- `a - b` on `size_t`.
abbrev pub sub64 : ℕ → ℕ → ℕ
sub64 a b = (a + 2 ^ 64 - b) % 2 ^ 64

abbrev pub add32 : ℕ → ℕ → ℕ
add32 a b = (a + b) % 2 ^ 32

abbrev pub sub32 : ℕ → ℕ → ℕ
sub32 a b = (a + 2 ^ 32 - b) % 2 ^ 32

-- `(n >> i) & 1`.
unfoldable pub test_bit : ℕ → ℕ → Bool
test_bit n zero = n % 2 == 1
test_bit n (suc i) = test_bit (n / 2) i

-- `n | (1 << i)`.
unfoldable pub set_bit : ℕ → ℕ → ℕ
set_bit n zero = n - n % 2 + 1
set_bit n (suc i) = n % 2 + 2 * set_bit (n / 2) i

-- `n & ~(1 << i)`.
unfoldable pub clear_bit : ℕ → ℕ → ℕ
clear_bit n zero = n - n % 2
clear_bit n (suc i) = n % 2 + 2 * clear_bit (n / 2) i

-- `~n` on a word of `k` bits.
abbrev pub invert : ℕ → ℕ → ℕ
invert k n = 2 ^ k - 1 - n

-- `a & b` on words of `k` bits.
unfoldable pub bits_and : ℕ → ℕ → ℕ → ℕ
bits_and zero a b = 0
bits_and (suc k) a b = min (a % 2) (b % 2) + 2 * bits_and k (a / 2) (b / 2)

-- `__builtin_ctz(n)` on a word of `k` bits; the C builtin is undefined at 0.
unfoldable pub ctz : ℕ → ℕ → ℕ
ctz zero n = 0
ctz (suc k) n = elim (n % 2 == 1) [ true ↦ 0 | false ↦ suc (ctz k (n / 2)) ]

-- `k - 1 - __builtin_clz(n)` on a word of `k` bits: the index of the highest set bit.
unfoldable pub msb : ℕ → ℕ → ℕ
msb zero n = 0
msb (suc k) n = elim (n / 2 == 0) [ true ↦ 0 | false ↦ suc (msb k (n / 2)) ]

-- `__builtin_popcount(n)` on a word of `k` bits.
unfoldable pub popcount : ℕ → ℕ → ℕ
popcount zero n = 0
popcount (suc k) n = n % 2 + popcount k (n / 2)
