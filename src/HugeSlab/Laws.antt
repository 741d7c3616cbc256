-- ===== src/HugeSlab/Laws.antt =====
-- What `v8m_huge_slab_alloc` and `v8m_huge_slab_free` do to the slots, and how they undo each other.
use v8malloc.Prelude.{
  ℕ, suc, ◌+◌, ◌-◌, ◌*◌, ◌/◌, ◌^◌, ◌≤◌, ◌<◌, ◌≡◌, refl, sym, ap, ◌∙◌, inl, inr, true, false, ◌&&◌,
  some, arith, ltb, leb, ◌==◌, eq→==, Bool-cases,
}
use v8malloc.Words.{wrap64, test_bit, set_bit, invert, bits_and, popcount}
use v8malloc.Words.Bits
use v8malloc.Words.Scan
use v8malloc.Words.Mask
use v8malloc.HugeSlab.{
  HugeSlab, page_size, valid_mask, free_index, alloc, free, is_full, live_count,
}

-- A descriptor as `v8m_huge_slab_init` leaves it: a base that is not NULL, room for all slots below
-- the end of the address space, and a bitmap of 32 bits.
pub record IsValid (s : HugeSlab) : Type 0 where
  pub based : 0 < s.base
  pub room : s.base + 32 * page_size ≤ 2 ^ 64
  pub some_slots : 0 < s.slabs_per_huge
  pub slots : s.slabs_per_huge ≤ 32
  pub bits : s.bitmap < 2 ^ 32

module _ {s : HugeSlab} (v : IsValid s) where
  pub valid_mask_lem : valid_mask s ≡ 2 ^ s.slabs_per_huge - 1
  unfolding valid_mask
  valid_mask_lem = elim (Bool-cases (leb 32 s.slabs_per_huge)) [
    | inl all ↦ let e : s.slabs_per_huge ≡ 32 = ground arith in rw e refl
    | inr fewer ↦ rw fewer (ground arith)
  ]

  valid_mask-lt : valid_mask s < 2 ^ 32
  valid_mask-lt = omega (
    arith,
    valid_mask_lem,
    Mask.pow_mono s.slabs_per_huge 32 v.slots,
    Mask.pow_pos s.slabs_per_huge,
  )

  abbrev free_bits : ℕ
  free_bits = bits_and 32 (invert 32 s.bitmap) (valid_mask s)

  free_bits-lt : free_bits < 2 ^ 32
  free_bits-lt =
      omega (arith, Mask.bits_and-le 32 (invert 32 s.bitmap) (valid_mask s), valid_mask-lt)

  module _ (open_slot : is_full (some s) ≡ false) where
    not_all : (bits_and 32 s.bitmap (valid_mask s) == valid_mask s) ≡ false
    unfolding is_full
    not_all =
        let pos = Mask.pow_mono 1 s.slabs_per_huge v.some_slots in
        let e = valid_mask_lem in ground arith

    -- A page that is not full has a free slot.
    free_bits_pos : 0 < free_bits
    free_bits_pos =
        let split = Mask.bits_and-add-invert 32 s.bitmap (valid_mask s) v.bits valid_mask-lt in
        let open_bit = not_all in ground arith

    free_index-lt : free_index s < 32
    unfolding free_index
    free_index-lt = Scan.ctz-lt 32 free_bits free_bits_pos free_bits-lt

    free_bit :
        (test_bit (invert 32 s.bitmap) (free_index s) && test_bit (valid_mask s) (free_index s))
        ≡ true
    unfolding free_index
    free_bit =
        sym (
          Mask.test_bit-bits_and 32 (invert 32 s.bitmap) (valid_mask s) (free_index s)
            free_index-lt)
        ∙ Scan.test_bit-ctz 32 free_bits free_bits_pos free_bits-lt

    pub free_index-lt-slots : free_index s < s.slabs_per_huge
    free_index-lt-slots =
        let ones : test_bit (valid_mask s) (free_index s) ≡ ltb (free_index s) s.slabs_per_huge =
          ap (λ m. test_bit m (free_index s)) valid_mask_lem
          ∙ Mask.test_bit-ones s.slabs_per_huge (free_index s) in
        let both = free_bit in ground arith

    pub free_index-free : test_bit s.bitmap (free_index s) ≡ false
    free_index-free =
        let inv = Bits.test_bit-invert 32 s.bitmap (free_index s) v.bits free_index-lt in
        let both = free_bit in ground arith

    address : wrap64 (s.base + free_index s * page_size) ≡ s.base + free_index s * page_size
    address = omega (arith, free_index-lt, v.room)

    pub alloc_free_slot : alloc (some s) ≡ (
      some (record s { bitmap = set_bit s.bitmap (free_index s) }),
      s.base + free_index s * page_size,
    )
    unfolding alloc
    alloc_free_slot =
        let based : (s.base == 0) ≡ false = ground (arith, v.based) in rw (based, not_all, address)

    pub mask_bit : test_bit (valid_mask s) (free_index s) ≡ true
    mask_bit = let both = free_bit in ground arith

    live_grows :
        popcount 32 (bits_and 32 (set_bit s.bitmap (free_index s)) (valid_mask s))
        ≡ suc (popcount 32 (bits_and 32 s.bitmap (valid_mask s)))
    live_grows =
        let i = free_index s in
        let clear = Mask.test_bit-bits_and 32 s.bitmap (valid_mask s) i free_index-lt in
        let taken = free_index-free in
        rw (Mask.bits_and-set_bit 32 s.bitmap (valid_mask s) i free_index-lt mask_bit) (
          Bits.popcount-set_bit 32 (bits_and 32 s.bitmap (valid_mask s)) i free_index-lt
            (ground arith))

-- `v8m_huge_slab_alloc` on a page that is not full marks one free slot below `slabs_per_huge`, changes
-- no other bit, and returns the address of that slot; the count of live slots grows by one.
pub alloc_slot :
    (s : HugeSlab)
    → IsValid s
    → is_full (some s) ≡ false
    → let i = free_index s in
      let s' = record s { bitmap = set_bit s.bitmap i } in
      (alloc (some s) ≡ (some s', s.base + i * page_size))
      × (i < s.slabs_per_huge)
      × (test_bit s.bitmap i ≡ false)
      × (live_count (some s') ≡ suc (live_count (some s)))
unfolding live_count valid_mask
alloc_slot s v h =
    (alloc_free_slot v h, free_index-lt-slots v h, free_index-free v h, live_grows v h)

-- The low sixteen bits of a multiple of the page size are 0.
pub offset-aligned : (i : ℕ) → (bits_and 64 (i * page_size) (page_size - 1) == 0) ≡ true
offset-aligned i = eq→== _ _ (Mask.bits_and-mask 64 16 (i * page_size) (omega arith) ∙ omega arith)

-- Freeing the slot that `v8m_huge_slab_alloc` has just handed out is accepted, and gives back the
-- descriptor as it was before.
pub free-alloc :
    (s : HugeSlab)
    → IsValid s
    → is_full (some s) ≡ false
    → free (alloc (some s)).0 (alloc (some s)).1 ≡ (some s, true)
unfolding free
free-alloc s v h =
    let lt = free_index-lt-slots v h in
    let i = free_index s in
    let offset : s.base + i * page_size - s.base ≡ i * page_size = omega arith in
    let idx : i * page_size / page_size ≡ i = omega arith in
    rw
      (
        alloc_free_slot v h,
        offset,
        offset-aligned i,
        idx,
        Bits.test_bit-set_bit_self,
        Bits.clear_bit-set_bit _ _ (free_index-free v h),
      )
      (ground (arith, v.based))

-- A slot that `v8m_huge_slab_free` accepts is refused when it is freed again.
pub free_twice :
    (s s' : HugeSlab) (slot : ℕ)
    → free (some s) slot ≡ (some s', true)
    → free (some s') slot ≡ (some s', false)
unfolding free
free_twice s s' slot h =
    ground (arith, Bits.test_bit-clear_bit_self s.bitmap ((slot - s.base) / page_size))

-- On a page that is full `v8m_huge_slab_alloc` returns NULL and changes nothing.
pub alloc-full : (s : HugeSlab) → is_full (some s) ≡ true → alloc (some s) ≡ (some s, 0)
unfolding alloc is_full
alloc-full s h = ground arith
