-- ===== src/Slab/Tiny/Laws.antt =====
-- What `v8m_slab_tiny_alloc` and `v8m_slab_tiny_free` do to a page that satisfies the invariant.
use v8malloc.Prelude.{
  ℕ, suc, ◌+◌, ◌-◌, ◌*◌, ◌/◌, ◌%◌, ◌≤◌, ◌<◌, ◌≡◌, ◌≢◌, ◌⊎◌, refl, ◌∙◌, inl, inr, true, false, none,
  some, arith, ◌==◌, ltb, if◌then◌else◌, Bool-cases, Option-cases, ne→==, get_or, length, subst,
}
use native.Mathlib.Nat.{mul-div_cancel, mul-le-mul_right}
use v8malloc.Words.{wrap64, wrap32, sub32, sub64}
use v8malloc.Slab.Tiny.{
  TinyMeta, mark_slot, clear_slot, find_word, full_word, clear_index, claim_slot, alloc, free,
}
use v8malloc.Slab.Tiny.Bitmap.{
  marked, total, get_or-lt, marked-mark, marked-clear, total-mark, total-clear, AllWords-mark,
  AllWords-clear,
}
use v8malloc.Slab.Tiny.Inv.{
  IsTiny, total-le, total-full, length-mark, length-clear, clear_index-lt, clear_index-clear,
  find_word-some, find_word-none, total-run,
}

-- The page after the slot is handed out, and after it is given back.
abbrev pub taken : TinyMeta → ℕ → TinyMeta
taken m slot = record m {
  used_count = suc m.used_count;
  search_hint = slot / 64;
  bitmap = mark_slot m.bitmap slot;
}

abbrev pub returned : TinyMeta → ℕ → TinyMeta
returned m slot = record m {
  used_count = m.used_count - 1;
  search_hint = if ltb (slot / 64) m.search_hint then slot / 64 else m.search_hint;
  bitmap = clear_slot m.bitmap slot;
}

abbrev pub slot_address : ℕ → TinyMeta → ℕ → ℕ
slot_address page m slot = page + 2048 + slot * m.object_size

module _ (page : ℕ) (m : TinyMeta) (v : IsTiny page m) where
  total-bound : total m.bitmap ≤ 8192
  total-bound = let e = v.words in omega (arith, total-le m.bitmap)

  slot_offset : (slot : ℕ) → slot < m.capacity → slot * m.object_size < 63488
  slot_offset slot h =
      let step = mul-le-mul_right m.object_size h in omega (arith, step, v.fits, v.sized)

  -- A clear slot stands below the capacity.
  clear-lt : (slot : ℕ) → slot < 8192 → marked m.bitmap slot ≡ false → slot < m.capacity
  clear-lt slot h c = elim (Bool-cases (ltb slot m.capacity)) [
    | inl t ↦ ground arith
    | inr f ↦ (let b = v.beyond slot (ground arith) h in ground arith)
  ]

  pub taken-IsTiny :
      (slot : ℕ) → slot < m.capacity → marked m.bitmap slot ≡ false → IsTiny page (taken m slot)
  taken-IsTiny slot h c =
      let cap = v.bounded in
      let word : slot / 64 < length m.bitmap = let e = v.words in omega arith in
      record {
        room = v.room;
        words = length-mark m.bitmap slot ∙ v.words;
        bits = AllWords-mark m.bitmap slot word v.bits;
        hint = omega arith;
        sized = v.sized;
        fits = v.fits;
        bounded = v.bounded;
        beyond = λ r a b. ground (arith, marked-mark m.bitmap slot word r, v.beyond r a b);
        counted = omega (arith, v.counted, total-mark m.bitmap slot word c);
      }

  returned-IsTiny :
      (slot : ℕ) → slot < m.capacity → marked m.bitmap slot ≡ true → IsTiny page (returned m slot)
  returned-IsTiny slot h c =
      let cap = v.bounded in
      let word : slot / 64 < length m.bitmap = let e = v.words in omega arith in
      record {
        room = v.room;
        words = length-clear m.bitmap slot ∙ v.words;
        bits = AllWords-clear m.bitmap slot word v.bits;
        hint = let hh = v.hint in ground arith;
        sized = v.sized;
        fits = v.fits;
        bounded = v.bounded;
        beyond = λ r a b.
            let d : (r == slot) ≡ false = ne→== r slot (λ q. omega arith) in
            ground (arith, marked-clear m.bitmap slot word r, v.beyond r a b, d);
        counted =
            (let run =
                total-run (8192 - m.capacity) (clear_slot m.bitmap slot) m.capacity
                  (let e = length-clear m.bitmap slot in let f = v.words in omega arith)
                  (λ r a b.
                    let d : (r == slot) ≡ false = ne→== r slot (λ q. omega arith) in
                    ground
                      (arith, marked-clear m.bitmap slot word r, v.beyond r a (omega arith), d)) in
              omega (arith, run, v.counted, total-clear m.bitmap slot word c));
      }

  claimed :
      (word : ℕ)
      → word < 128
      → get_or m.bitmap word 0 ≢ full_word
      → (slot : ℕ) × (slot < m.capacity)
        × (marked m.bitmap slot ≡ false)
        × (claim_slot page m word (clear_index m word) ≡ (taken m slot, slot_address page m slot))
  unfolding claim_slot mark_slot
  claimed word h gap =
      let w = get_or m.bitmap word 0 in
      let lt = get_or-lt m.bitmap word v.bits in
      let bit = clear_index-lt w lt gap in
      let i = clear_index m word in
      let div : (word * 64 + i) / 64 ≡ word = omega arith in
      let rem : (word * 64 + i) % 64 ≡ i = omega arith in
      let clear : marked m.bitmap (word * 64 + i) ≡ false =
        rw (div, rem) (clear_index-clear w lt gap) in
      let below = clear-lt (word * 64 + i) (omega arith) clear in
      let off = slot_offset (word * 64 + i) below in
      let r = v.room in
      let c = v.counted in
      let tb = total-bound in
      let used : wrap32 (m.used_count + 1) ≡ suc m.used_count = omega arith in
      let addr : wrap64 (wrap64 (page + 2048) + (word * 64 + i) * m.object_size)
          ≡ slot_address page m (word * 64 + i) =
        omega arith in
      (word * 64 + i, below, clear, rw (used, addr, div, rem) refl)

-- How an allocation ends: NULL with every slot in use, or a slot that was clear.
abbrev pub Outcome : ℕ → TinyMeta → TinyMeta × ℕ → Type 0
Outcome page m r =
    ((r ≡ (m, 0)) × (m.used_count ≡ m.capacity))
    ⊎ ((slot : ℕ) × (slot < m.capacity)
        × (marked m.bitmap slot ≡ false)
        × (r ≡ (taken m slot, slot_address page m slot))
        × IsTiny page (taken m slot))

module _ (page : ℕ) (m : TinyMeta) (v : IsTiny page m) where
  word-Outcome :
      (word : ℕ)
      → word < 128
      → get_or m.bitmap word 0 ≢ full_word
      → Outcome page m (claim_slot page m word (clear_index m word))
  word-Outcome word h gap =
      let (slot, lt, clear, eq) = claimed page m v word h gap in
      inr (slot, lt, clear, eq, taken-IsTiny page m v slot lt clear)

  start : wrap32 m.search_hint ≡ m.search_hint
  start = let h = v.hint in omega arith

  alloc_after_hint :
      (i : ℕ)
      → find_word (128 - m.search_hint) m.bitmap m.search_hint ≡ some i
      → claim_slot page m i (clear_index m i) ≡ alloc page m
  unfolding alloc
  alloc_after_hint i e = rw (start, e, alloc) refl

  module _ (e : find_word (128 - m.search_hint) m.bitmap m.search_hint ≡ none) where
    alloc_before_hint :
        (i : ℕ)
        → find_word m.search_hint m.bitmap 0 ≡ some i
        → claim_slot page m i (clear_index m i) ≡ alloc page m
    unfolding alloc
    alloc_before_hint i f = rw (start, e, start, f, alloc) refl

    alloc-none : find_word m.search_hint m.bitmap 0 ≡ none → alloc page m ≡ (m, 0)
    unfolding alloc
    alloc-none f = rw (start, e, start, f, alloc) refl

    all_used : find_word m.search_hint m.bitmap 0 ≡ none → m.used_count ≡ m.capacity
    all_used f =
        let words = v.words in
        let hint = v.hint in
        let full = total-full m.bitmap (λ i k. elim (Bool-cases (ltb i m.search_hint)) [
          | inl t ↦ find_word-none _ m.bitmap 0 f i (omega arith) (ground arith)
          | inr n ↦ find_word-none _ m.bitmap m.search_hint e i (ground arith) (omega arith)
        ]) in
        omega (arith, full, v.counted, v.bounded)

-- `v8m_slab_tiny_alloc` on a page that satisfies the invariant either returns NULL, leaves the page as
-- it is, and every slot is in use; or it returns the address of a slot below the capacity that was
-- clear, marks it, counts it, and the page satisfies the invariant again.
pub claims_free_slot : (page : ℕ) (m : TinyMeta) → IsTiny page m → Outcome page m (alloc page m)
claims_free_slot page m v =
    elim (Option-cases (find_word (128 - m.search_hint) m.bitmap m.search_hint)) [
      | inr (i, e) ↦
          (let (a, b, gap) = find_word-some _ m.bitmap m.search_hint i e in
            let hint = v.hint in
            subst (Outcome page m) (alloc_after_hint page m v i e)
              (word-Outcome page m v i (omega arith) gap))
      | inl e ↦ elim (Option-cases (find_word m.search_hint m.bitmap 0)) [
        | inr (i, f) ↦
            (let (a, b, gap) = find_word-some _ m.bitmap 0 i f in
              let hint = v.hint in
              subst (Outcome page m) (alloc_before_hint page m v e i f)
                (word-Outcome page m v i (omega arith) gap))
        | inl f ↦ inl (alloc-none page m v e f, all_used page m v e f)
      ]
    ]

-- `v8m_slab_tiny_free` of a slot in use clears that slot, counts it as free, says whether it was the
-- last one in use, and the page satisfies the invariant again.
pub frees_used_slot :
    (page : ℕ) (m : TinyMeta) (slot : ℕ)
    → IsTiny page m
    → slot < m.capacity
    → marked m.bitmap slot ≡ true
    → (free page m (slot_address page m slot) ≡ (returned m slot, m.used_count == 1))
      × IsTiny page (returned m slot)
unfolding free
frees_used_slot page m slot v h c =
    let off = slot_offset page m v slot h in
    let r = v.room in
    let cap = v.bounded in
    let delta : sub64 (slot_address page m slot) (wrap64 (page + 2048)) ≡ slot * m.object_size =
      omega arith in
    let div : slot * m.object_size / m.object_size ≡ slot = mul-div_cancel slot v.sized in
    let word : slot / 64 < length m.bitmap = let e = v.words in omega arith in
    let used : sub32 m.used_count 1 ≡ m.used_count - 1 = omega (
      arith,
      v.counted,
      total-bound page m v,
      (returned-IsTiny page m v slot h c).counted,
      total-clear m.bitmap slot word c,
    ) in
    let low : wrap32 slot ≡ slot = omega arith in
    (rw (delta, div, low, used) refl, returned-IsTiny page m v slot h c)
