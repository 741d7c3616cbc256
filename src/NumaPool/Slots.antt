-- ===== src/NumaPool/Slots.antt =====
-- The slots of one huge page of a node: the addresses that are carved from it.
use v8malloc.Prelude.{
  ℕ, ◌+◌, ◌-◌, ◌*◌, ◌/◌, ◌%◌, ◌<◌, ◌≡◌, ◌≢◌, ◌⊎◌, refl, sym, ap, ◌∙◌, inl, inr, Bool, true, false,
  ◌&&◌, some, arith, ◌==◌, ne→==, ==→eq, Bool-cases, subst,
}
use v8malloc.Words.{test_bit, set_bit, clear_bit, bits_and}
use v8malloc.Words.Bits
use v8malloc.Words.Mask
use v8malloc.HugeSlab.{HugeSlab, page_size, valid_mask, free, is_full, is_empty}
use v8malloc.HugeSlab.Laws.{IsValid, offset-aligned, valid_mask_lem}
use v8malloc.NumaPool.{huge_base}

-- A page of 2 MiB on its border, with a valid descriptor.
pub record IsPage (s : HugeSlab) : Type 0 where
  pub valid : IsValid s
  pub border : s.base % 2097152 ≡ 0

-- The slab at the address `a` is carved from the page.
pub record IsCarved (s : HugeSlab) (a : ℕ) : Type 0 where
  pub slot : ℕ
  pub inside : slot < s.slabs_per_huge
  pub set_there : test_bit s.bitmap slot ≡ true
  pub place : a ≡ s.base + slot * page_size

pub clash : true ≢ false
clash e = ground arith

abbrev pub marked : HugeSlab → ℕ → HugeSlab
marked s i = record s { bitmap = set_bit s.bitmap i }

abbrev pub cleared : HugeSlab → ℕ → HugeSlab
cleared s i = record s { bitmap = clear_bit s.bitmap i }

module _ {s : HugeSlab} (p : IsPage s) where
  -- The address of a slab leads to the base of its page.
  pub huge_base-slot : (i : ℕ) → i < s.slabs_per_huge → huge_base (s.base + i * page_size) ≡ s.base
  unfolding huge_base
  huge_base-slot i h =
      let v = p.valid in
      let border = p.border in
      let room = v.room in
      let few = v.slots in
      let a = s.base + i * page_size in
      Mask.bits_and-invert 64 21 a (omega arith) (omega arith) ∙ omega arith

  mask_bit_below : (i : ℕ) → i < s.slabs_per_huge → test_bit (valid_mask s) i ≡ true
  mask_bit_below i h =
      ap (λ m. test_bit m i) (valid_mask_lem p.valid)
      ∙ Mask.test_bit-ones s.slabs_per_huge i
      ∙ ground arith

  pub marked-IsPage : (i : ℕ) → i < s.slabs_per_huge → IsPage (marked s i)
  marked-IsPage i h =
      let v = p.valid in
      let few = v.slots in
      record {
        valid = record {
          based = v.based;
          room = v.room;
          some_slots = v.some_slots;
          slots = v.slots;
          bits = Bits.set_bit-lt 32 s.bitmap i v.bits (omega arith);
        };
        border = p.border;
      }

  pub cleared-IsPage : (i : ℕ) → IsPage (cleared s i)
  cleared-IsPage i =
      let v = p.valid in
      record {
        valid = record {
          based = v.based;
          room = v.room;
          some_slots = v.some_slots;
          slots = v.slots;
          bits = omega (arith, Bits.clear_bit-le s.bitmap i, v.bits);
        };
        border = p.border;
      }

  -- The release of a carved slab is accepted and clears its bit.
  pub frees_slot :
      (i : ℕ)
      → i < s.slabs_per_huge
      → test_bit s.bitmap i ≡ true
      → free (some s) (s.base + i * page_size) ≡ (some (cleared s i), true)
  unfolding free
  frees_slot i h bit =
      let v = p.valid in
      let offset : s.base + i * page_size - s.base ≡ i * page_size = omega arith in
      let idx : i * page_size / page_size ≡ i = omega arith in
      rw (offset, offset-aligned i, idx, bit) (ground (arith, v.based))

  bit_of_masked :
      (n i : ℕ) → i < s.slabs_per_huge → test_bit (bits_and 32 n (valid_mask s)) i ≡ test_bit n i
  bit_of_masked n i h =
      let few = p.valid.slots in
      Mask.test_bit-bits_and 32 n (valid_mask s) i (omega arith)
      ∙ ap (λ b. test_bit n i && b) (mask_bit_below i h)
      ∙ and-true (test_bit n i)
    where
      and-true : (b : Bool) → (b && true) ≡ b
      and-true true = refl
      and-true false = refl

  -- A page with a clear bit is not full.
  pub cleared-open : (i : ℕ) → i < s.slabs_per_huge → is_full (some (cleared s i)) ≡ false
  unfolding is_full valid_mask
  cleared-open i h =
      let m = valid_mask s in
      let n = clear_bit s.bitmap i in
      let differs : (bits_and 32 n m == m) ≡ false = ne→== _ _ (λ e. clash (
        sym (mask_bit_below i h)
        ∙ ap (λ k. test_bit k i) (sym e)
        ∙ bit_of_masked n i h
        ∙ Bits.test_bit-clear_bit_self s.bitmap i)) in
      ground arith

  -- An empty page has no carved slab.
  pub empty-clear :
      is_empty (some s) ≡ true → (i : ℕ) → i < s.slabs_per_huge → test_bit s.bitmap i ≡ false
  unfolding is_empty
  empty-clear e i h =
      sym (bit_of_masked s.bitmap i h) ∙ ap (λ k. test_bit k i) (==→eq _ _ e) ∙ Bits.test_bit-zero i

-- The address decides the page.
pub carved_base :
    (s t : HugeSlab) (a : ℕ) → IsPage s → IsPage t → IsCarved s a → IsCarved t a → s.base ≡ t.base
carved_base s t a p q c d =
    sym (huge_base-slot p c.slot c.inside)
    ∙ ap huge_base (sym c.place ∙ d.place)
    ∙ huge_base-slot q d.slot d.inside

-- After a slot is marked.
pub carved_mark : (s : HugeSlab) (i a : ℕ) → IsCarved s a → IsCarved (marked s i) a
carved_mark s i a c = record {
  slot = c.slot;
  inside = c.inside;
  set_there = elim (Bool-cases (i == c.slot)) [
    | inl e ↦
        subst (λ j. test_bit (set_bit s.bitmap i) j ≡ true) (==→eq _ _ e)
          (Bits.test_bit-set_bit_self s.bitmap i)
    | inr n ↦ Bits.test_bit-set_bit_ne s.bitmap i c.slot (apart n) ∙ c.set_there
  ];
  place = c.place;
}
  where
    apart : {j : ℕ} → (i == j) ≡ false → i ≢ j
    apart n e = ground (arith, e)

pub of_mark :
    (s : HugeSlab) (i a : ℕ) → IsCarved (marked s i) a → (a ≡ s.base + i * page_size) ⊎ IsCarved s a
of_mark s i a c = elim (Bool-cases (i == c.slot)) [
  | inl e ↦ inl (c.place ∙ ap (λ j. s.base + j * page_size) (sym (==→eq _ _ e)))
  | inr n ↦ inr (record {
    slot = c.slot;
    inside = c.inside;
    set_there = sym (Bits.test_bit-set_bit_ne s.bitmap i c.slot (apart n)) ∙ c.set_there;
    place = c.place;
  })
]
  where
    apart : {j : ℕ} → (i == j) ≡ false → i ≢ j
    apart n e = ground (arith, e)

-- After a slot is cleared.
pub carved_clear :
    (s : HugeSlab) (i a : ℕ) → a ≢ s.base + i * page_size → IsCarved s a → IsCarved (cleared s i) a
carved_clear s i a n c = record {
  slot = c.slot;
  inside = c.inside;
  set_there =
      Bits.test_bit-clear_bit_ne s.bitmap i c.slot
        (λ e. n (c.place ∙ ap (λ j. s.base + j * page_size) (sym e)))
      ∙ c.set_there;
  place = c.place;
}

pub of_clear :
    (s : HugeSlab) (i a : ℕ)
    → IsCarved (cleared s i) a
    → IsCarved s a × (a ≢ s.base + i * page_size)
of_clear s i a c = (
  record {
    slot = c.slot;
    inside = c.inside;
    set_there = sym (Bits.test_bit-clear_bit_ne s.bitmap i c.slot (other c)) ∙ c.set_there;
    place = c.place;
  },
  λ e. other c (same_slot s i c.slot (sym e ∙ c.place)),
)
  where
    same_slot : (s : HugeSlab) (i j : ℕ) → s.base + i * page_size ≡ s.base + j * page_size → i ≡ j
    same_slot s i j e = omega arith

    other : (c : IsCarved (cleared s i) a) → i ≢ c.slot
    other c e = clash (
        sym c.set_there
        ∙ ap (test_bit (clear_bit s.bitmap i)) (sym e)
        ∙ Bits.test_bit-clear_bit_self s.bitmap i)

-- A slot that is clear is not carved.
pub not_carved :
    (s : HugeSlab) (i : ℕ) → test_bit s.bitmap i ≡ false → IsCarved s (s.base + i * page_size) → ⊥
not_carved s i free_bit c =
    let same : c.slot ≡ i = let e = c.place in omega arith in
    clash (sym c.set_there ∙ ap (test_bit s.bitmap) same ∙ free_bit)
