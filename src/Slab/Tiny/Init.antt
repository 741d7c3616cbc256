-- ===== src/Slab/Tiny/Init.antt =====
-- What `v8m_slab_tiny_init` leaves behind.
use v8malloc.Prelude.{
  ℕ, zero, suc, ◌+◌, ◌-◌, ◌*◌, ◌/◌, ◌%◌, ◌^◌, ◌≤◌, ◌<◌, ◌≡◌, refl, ◌∙◌, Bool, true, false, ◌||◌,
  ◌&&◌, List, arith, ◌==◌, ltb, leb, ne→==, get_or, length, replicate, length-replicate,
}
use native.Mathlib.Nat.{div-mul-le_self, mul-le-mul_right}
use v8malloc.Words.{popcount, wrap16}
use v8malloc.Words.Bits.{test_bit-zero}
use v8malloc.SizeClass.{Table, size_class_size}
use v8malloc.Slab.Tiny.{mark_slot, mark_from, capacity_for, init}
use v8malloc.Slab.Tiny.Bitmap.{marked, total, AllWords, marked-mark, total-mark, AllWords-mark}
use v8malloc.Slab.Tiny.Inv.{IsTiny, length-mark}

capacity_for-bound : (size : ℕ) → (capacity_for size ≤ 63488 / size) × (capacity_for size ≤ 8192)
unfolding capacity_for
capacity_for-bound size = (ground arith, ground arith)

capacity_for-le : (size : ℕ) → capacity_for size * size ≤ 63488
capacity_for-le size =
    omega (arith, mul-le-mul_right size (capacity_for-bound size).0, div-mul-le_self 63488 size)

length-mark_from : (k s : ℕ) (ws : List ℕ) → length (mark_from k s ws) ≡ length ws
unfolding mark_from
length-mark_from zero s ws = refl
length-mark_from (suc k) s ws = length-mark_from k (suc s) (mark_slot ws s) ∙ length-mark ws s

module _ where
  AllWords-mark_from :
      (k s : ℕ) (ws : List ℕ) → s + k ≤ 64 * length ws → AllWords ws → AllWords (mark_from k s ws)
  unfolding mark_from
  AllWords-mark_from zero s ws h a = a
  AllWords-mark_from (suc k) s ws h a =
      let len = length-mark ws s in
      AllWords-mark_from k (suc s) (mark_slot ws s) (omega arith)
        (AllWords-mark ws s (omega arith) a)

  -- The loop marks the slots of its range.
  marked-mark_from :
      (k s : ℕ) (ws : List ℕ)
      → s + k ≤ 64 * length ws
      → (r : ℕ) → marked (mark_from k s ws) r ≡ (marked ws r || (leb s r && ltb r (s + k)))
  unfolding mark_from
  marked-mark_from zero s ws h r = ground arith
  marked-mark_from (suc k) s ws h r =
      let len = length-mark ws s in
      ground (
        arith,
        marked-mark_from k (suc s) (mark_slot ws s) (omega arith) r,
        marked-mark ws s (omega arith) r,
      )

  -- The slots that `init` marks are those from the capacity on.
  marked-range :
      (cap r : ℕ)
      → cap ≤ 8192
      → cap ≤ r
      → r < 8192
      → (leb cap r && ltb r (cap + (8192 - cap))) ≡ true
  marked-range cap r b h k = ground arith

  marked-below : (cap r : ℕ) → r < cap → (leb cap r && ltb r (cap + (8192 - cap))) ≡ false
  marked-below cap r h = ground arith

  or-true : (a b : Bool) → b ≡ true → (a || b) ≡ true
  or-true true b h = refl
  or-true false b h = h

  total-mark_from :
      (k s : ℕ) (ws : List ℕ)
      → s + k ≤ 64 * length ws
      → ((r : ℕ) → s ≤ r → marked ws r ≡ false)
      → total (mark_from k s ws) ≡ total ws + k
  unfolding mark_from
  total-mark_from zero s ws h c = omega arith
  total-mark_from (suc k) s ws h c =
      let len = length-mark ws s in
      let word : s / 64 < length ws = omega arith in
      omega (
        arith,
        total-mark ws s word (c s (omega arith)),
        total-mark_from k (suc s) (mark_slot ws s) (omega arith) (λ r a.
            let d : (r == s) ≡ false = ne→== r s (λ q. omega arith) in
            ground (arith, marked-mark ws s word r, c r (omega arith), d)),
      )

get_or-replicate : (n i : ℕ) → get_or {A = ℕ} (replicate n 0) i 0 ≡ 0
get_or-replicate zero i = refl
get_or-replicate (suc n) zero = refl
get_or-replicate (suc n) (suc i) = get_or-replicate n i

marked-blank : (n r : ℕ) → marked (replicate n 0) r ≡ false
marked-blank n r = rw (get_or-replicate n (r / 64)) (test_bit-zero (r % 64))

total-blank : (n : ℕ) → total (replicate n 0) ≡ 0
unfolding total popcount
total-blank zero = refl
total-blank (suc n) = omega (arith, total-blank n)

AllWords-blank : (n : ℕ) → AllWords (replicate n 0)
AllWords-blank zero = tt
AllWords-blank (suc n) = (omega arith, AllWords-blank n)

-- `v8m_slab_tiny_init` of a class whose size is not 0 leaves a page that satisfies the invariant, with
-- every slot below the capacity clear.
pub init-IsTiny :
    (table : Table) (page class owner cpu : ℕ)
    → page + 65536 ≤ 2 ^ 64
    → 0 < wrap16 (size_class_size table class)
    → let m = init table class owner cpu in
      IsTiny page m × ((slot : ℕ) → slot < m.capacity → marked m.bitmap slot ≡ false)
unfolding init
init-IsTiny table page class owner cpu room sized =
    let size = wrap16 (size_class_size table class) in
    let bounded = (capacity_for-bound size).1 in
    let cap = capacity_for size in
    let blank : List ℕ = replicate 128 0 in
    let len : length blank ≡ 128 = length-replicate {A = ℕ} 128 0 in
    let slots = marked-mark_from (8192 - cap) cap blank (omega arith) in
    (
      record {
        room = room;
        words = length-mark_from (8192 - cap) cap blank ∙ len;
        bits = AllWords-mark_from (8192 - cap) cap blank (omega arith) (AllWords-blank 128);
        hint = omega arith;
        sized = sized;
        fits = capacity_for-le size;
        bounded = bounded;
        beyond = λ r a b. slots r ∙ or-true (marked blank r) _ (marked-range cap r bounded a b);
        counted = omega (
          arith,
          total-mark_from (8192 - cap) cap blank (omega arith) (λ r a. marked-blank 128 r),
          total-blank 128,
        );
      },
      λ slot h. slots slot ∙ rw (marked-below cap slot h, marked-blank 128 slot) refl,
    )
