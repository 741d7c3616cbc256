-- ===== src/Large/Aligned.antt =====
-- `v8m_large_alloc_aligned` and the alignment asked for.
use v8malloc.Prelude.{
  ℕ, ◌%◌, ◌^◌, ◌≤◌, ◌<◌, ◌≡◌, ◌≢◌, ◌⊎◌, refl, inl, inr, true, ◌||◌, none, leb, ◌==◌, arith,
  Bool-cases, ltb, ltb→lt, ==→eq, sym, subst, holds_below, holds_below-at,
}
use Prim.Native.Nat.{◌∣◌}
use native.Mathlib.Nat.{dvd_of_mod-eq-zero, mod-eq-zero_of_dvd, dvd-mod_iff, dvd_refl}
use v8malloc.Words.Mask.{pow_pos, pow_mono}
use v8malloc.Slab.{page_size}
use v8malloc.Large.{PageHeap, Config, State, alloc_aligned, usable_size, free}
use v8malloc.Large.Laws.{IsPageHeap, AllRegions, NullOrUsable, large_or_null}

page_table : (k : ℕ) → k < 16 → (65536 % 2 ^ k == 0) ≡ true
unfolding holds_below
page_table k h = holds_below-at (λ k. 65536 % 2 ^ k == 0) 16 k h refl

header_table : (k : ℕ) → k < 12 → (2048 % 2 ^ k == 0) ≡ true
unfolding holds_below
header_table k h = holds_below-at (λ k. 2048 % 2 ^ k == 0) 12 k h refl

header_dvd : (k : ℕ) → 2 ^ k ≤ 2048 → 2 ^ k ∣ 2048
header_dvd k h = elim (Bool-cases (ltb k 12)) [
  | inl t ↦ dvd_of_mod-eq-zero (2 ^ k) (==→eq _ _ (header_table k (ltb→lt k 12 t)))
  | inr f ↦ (let m = pow_mono 12 k (ground arith) in absurd (omega arith))
]

-- What divides the page size and the offset in the page divides the address.
low_bits : (k p offset : ℕ) → k ≤ 15 → 2 ^ k ∣ offset → p % 65536 ≡ offset → p % 2 ^ k ≡ 0
low_bits k p offset h d e =
    let page : 2 ^ k ∣ 65536 =
      dvd_of_mod-eq-zero (2 ^ k) (==→eq _ _ (page_table k (omega arith))) in
    mod-eq-zero_of_dvd (2 ^ k) ((dvd-mod_iff (2 ^ k) page).0 (subst (λ x. 2 ^ k ∣ x) (sym e) d))

checked :
    {Heap : Type 0} (os : PageHeap Heap) (size offset k : ℕ) (r : State Heap × ℕ)
    → NullOrUsable os size offset r
    → (r.1 % 65536 ≡ offset → r.1 % 2 ^ k ≡ 0)
    → (r.1 ≡ 0) ⊎ ((r.1 % 2 ^ k ≡ 0) × (size ≤ usable_size os r.0 r.1) × (free os r.0 r.1 ≢ none))
checked os size offset k r (inl z) low = inl z
checked os size offset k r (inr u) low = inr (low u.0, u.1, u.2)

-- `v8m_large_alloc_aligned` with a power of two below a page returns NULL or a pointer that is a
-- multiple of it, with room for the request, that `v8m_large_free` accepts.
pub aligned_or_null :
    {Heap : Type 0} (os : PageHeap Heap) (config : Config) (st : State Heap) (size k owner : ℕ)
    → IsPageHeap os
    → AllRegions st.cache
    → k ≤ 15
    → let r = alloc_aligned os config st size (2 ^ k) owner in
      (r.1 ≡ 0) ⊎ ((r.1 % 2 ^ k ≡ 0) × (size ≤ usable_size os r.0 r.1) × (free os r.0 r.1 ≢ none))
unfolding alloc_aligned
aligned_or_null os config st size k owner promise regions h = elim (Bool-cases (size == 0)) [
  | inl z ↦ rw z (inl refl)
  | inr z ↦ elim (Bool-cases (2 ^ k == 0 || leb (2 ^ k) 2048)) [
    | inl small ↦
        rw (z, small)
          (checked os size 2048 k _
            (large_or_null os config st size 2048 16 owner promise regions (omega arith)
              (omega arith))
            (low_bits k _ 2048 h (header_dvd k (ground (arith, pow_pos k)))))
    | inr large ↦ elim (Bool-cases (leb page_size (2 ^ k))) [
      | inl out ↦ rw (z, large, out) (inl refl)
      | inr inside ↦
          rw (z, large, inside)
            (checked os size (2 ^ k) k _
              (large_or_null os config st size (2 ^ k) 16 owner promise regions (omega arith)
                (ground arith))
              (low_bits k _ (2 ^ k) h (dvd_refl (2 ^ k))))
    ]
  ]
]
