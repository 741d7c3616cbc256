-- ===== src/Large/Laws.antt =====
-- The pointer of a large allocation: its region, its usable size, and its red zone.
use v8malloc.Prelude.{
  ℕ, zero, suc, ◌+◌, ◌-◌, ◌%◌, ◌^◌, ◌≤◌, ◌<◌, ◌≡◌, ◌≢◌, ◌⊎◌, refl, ◌∙◌, inl, inr, Bool, true, false,
  not, ◌&&◌, none, some, List, [], ◌∷◌, ltb, leb, ◌==◌, if◌then◌else◌, arith, Bool-cases,
  Option-cases, eq→==, ne→==, get_or, subst,
}
use native.Mathlib.Nat.{mod-lt}
use v8malloc.Words.{wrap64, sub64, bits_and}
use v8malloc.Words.Mask.{bits_and-invert, bits_and-mask, pow_pos, pow_mono}
use v8malloc.Slab.{page_size, ptr_to_meta}
use v8malloc.LargeCache.{Entry, no_entry, find_size}
use v8malloc.LargeCache as Cache
use v8malloc.LargeCache.Laws.{find_size-some}
use v8malloc.Large.{
  PageHeap, Config, State, new_meta, round_up_pow2, region_size, redzone_span, fill_bytes,
  fill_redzone, intact, check_redzone, obtain, install, equip, alloc_with_offset, free, usable_size,
}

round_up_pow2_lem :
    (value j : ℕ)
    → j ≤ 63
    → value + 2 ^ j < 2 ^ 64
    → (value ≤ round_up_pow2 value (2 ^ j)) × (round_up_pow2 value (2 ^ j) < value + 2 ^ j)
unfolding round_up_pow2
round_up_pow2_lem value j h room =
    let pos = pow_pos j in
    let w = value + 2 ^ j - 1 in
    let up : sub64 (wrap64 (value + 2 ^ j)) 1 ≡ w = omega arith in
    let mask : sub64 (2 ^ j) 1 ≡ 2 ^ j - 1 = omega arith in
    let low = mod-lt w {m = 2 ^ j} (omega arith) in
    let small : w < 2 ^ 64 = omega arith in
    let cut = bits_and-invert 64 j w (omega arith) small in
    rw (up, mask, cut) (omega arith, omega arith)

rounded_lem :
    (size header_offset j : ℕ)
    → j ≤ 32
    → header_offset < 65536
    → ltb (2 ^ 64 - 1 - header_offset - 2 ^ j) size ≡ false
    → let rounded = round_up_pow2 (wrap64 (header_offset + size)) (2 ^ j) in
      (header_offset + size ≤ rounded) × (rounded < 2 ^ 64)
rounded_lem size header_offset j hj ho fits =
    let al = pow_mono j 32 hj in
    let room : header_offset + size + 2 ^ j < 2 ^ 64 = ground arith in
    let total : wrap64 (header_offset + size) ≡ header_offset + size = omega arith in
    let (low, high) = round_up_pow2_lem (header_offset + size) j (omega arith) room in
    rw total (low, omega arith)

-- The size of a region, where it does not overflow, holds the header, the request and the guard page
-- of the debug mode.
pub region_size_lem :
    (debug : Bool) (size header_offset j n : ℕ)
    → j ≤ 32
    → header_offset < 65536
    → region_size debug size header_offset (2 ^ j) ≡ some n
    → (header_offset + size + (if debug then page_size else 0) ≤ n) × (n < 2 ^ 64)
unfolding region_size
region_size_lem true size header_offset j n hj ho e =
    ground (arith, rounded_lem size header_offset j hj ho)
region_size_lem false size header_offset j n hj ho e =
    ground (arith, rounded_lem size header_offset j hj ho)

-- A region of the page heap that the cache or the page heap hands out: NULL, or a range on a page
-- border below the end of the address space.
abbrev pub IsRegion : ℕ → ℕ → Type 0
IsRegion region size = (region ≡ 0) ⊎ ((region % 65536 ≡ 0) × (region + size < 2 ^ 64))

abbrev pub AllRegions : List Entry → Type 0
AllRegions [] = Unit {0}
AllRegions (e ∷ rest) = IsRegion e.region e.mmap_size × AllRegions rest

get_or-IsRegion :
    (cache : List Entry) (i : ℕ)
    → AllRegions cache
    → IsRegion (get_or cache i no_entry).region (get_or cache i no_entry).mmap_size
get_or-IsRegion [] i h = inl refl
get_or-IsRegion (e ∷ rest) zero h = h.0
get_or-IsRegion (e ∷ rest) (suc i) h = get_or-IsRegion rest i h.1

take-IsRegion :
    (cache : List Entry) (size : ℕ) → AllRegions cache → IsRegion (Cache.take cache size).1 size
unfolding Cache.take
take-IsRegion cache size h = elim (Option-cases (find_size cache size)) [
  | inl e ↦ rw (e, Cache.take) (inl refl)
  | inr (i, e) ↦
      rw (e, Cache.take)
        (subst (IsRegion (get_or cache i no_entry).region) (find_size-some cache size i e).1
          (get_or-IsRegion cache i h))
]

-- What the page heap promises: NULL, or a region of the size asked for that starts on a page border.
pub record IsPageHeap {Heap : Type 0} (os : PageHeap Heap) : Type 0 where
  pub aligned :
      (heap : Heap) (bytes alignment : ℕ)
      → IsRegion (os.page_heap_alloc heap bytes alignment).1 bytes

-- The pages of an address in a region that starts on a page border.
ptr_to_meta_lem :
    (region offset : ℕ)
    → region % 65536 ≡ 0
    → offset < 65536
    → region + offset < 2 ^ 64
    → (ptr_to_meta (region + offset) ≡ region)
      × (bits_and 64 (region + offset) (page_size - 1) ≡ offset)
unfolding ptr_to_meta
ptr_to_meta_lem region offset a b c = (
  bits_and-invert 64 16 (region + offset) (omega arith) c ∙ omega arith,
  bits_and-mask 64 16 (region + offset) (omega arith) ∙ omega arith,
)

intact-fill_bytes :
    (k from start n : ℕ) (bytes : ℕ → ℕ)
    → start ≤ from
    → from + k ≤ start + n
    → intact k from (fill_bytes n start bytes) ≡ true
unfolding intact fill_bytes
intact-fill_bytes zero from start n bytes a b = refl
intact-fill_bytes (suc k) from start n bytes a b =
    let ih = intact-fill_bytes k (suc from) start n bytes (omega arith) (omega arith) in
    let here : (leb start from && ltb from (start + n)) ≡ true = ground arith in rw here ih

-- Only a damaged red zone stops `free`.
free_succeeds :
    {Heap : Type 0} (os : PageHeap Heap) (st : State Heap) (obj : ℕ)
    → let meta = st.metas (ptr_to_meta obj) in
      ((meta.guard_bytes == 0) ≡ true)
        ⊎ (check_redzone st.bytes obj meta (bits_and 64 obj (page_size - 1)) ≡ true)
      → free os st obj ≢ none
unfolding free
free_succeeds os st obj h e =
    let meta = st.metas (ptr_to_meta obj) in
    elim (Option-cases (Cache.put st.cache (ptr_to_meta obj) meta.mmap_size).1) [
      | inl n ↦ elim h [ inl g ↦ ground arith | inr c ↦ ground arith ]
      | inr (entry, n) ↦ elim h [ inl g ↦ ground arith | inr c ↦ ground arith ]
    ]

-- A pointer handed out: its place in the page, room for the request, and a `free` that does not abort.
abbrev pub IsUsable : {Heap : Type 0} → PageHeap Heap → ℕ → ℕ → State Heap × ℕ → Type 0
IsUsable os size header_offset r =
    (r.1 % 65536 ≡ header_offset) × (size ≤ usable_size os r.0 r.1) × (free os r.0 r.1 ≢ none)

module _ {Heap : Type 0} (os : PageHeap Heap) (st : State Heap)
    (region size mmap_size header_offset owner : ℕ) (not_null : region ≢ 0)
    (border : region % 65536 ≡ 0) (room : region + mmap_size < 2 ^ 64)
    (header : header_offset < 65536) where
  module _ (debug : Bool)
      (fits : header_offset + size + (if debug then page_size else 0) ≤ mmap_size) where
    abbrev done : State Heap × ℕ
    done = install os debug st region size mmap_size header_offset owner

    user : done.1 ≡ region + header_offset
    unfolding install
    user = omega arith

    owner_page :
        (ptr_to_meta done.1 ≡ region) × (bits_and 64 done.1 (page_size - 1) ≡ header_offset)
    owner_page = rw user (ptr_to_meta_lem region header_offset border header (omega arith))

    header_lem : done.0.metas region ≡ new_meta debug size mmap_size owner
    unfolding install
    header_lem = rw (eq→== region region refl) refl

    usable :
        usable_size os done.0 done.1 ≡ mmap_size - header_offset - (if debug then page_size else 0)
    unfolding usable_size new_meta
    usable =
        let some_user : (done.1 == 0) ≡ false = ne→== _ _ (λ e. omega (arith, user)) in
        rw (some_user, owner_page.0, owner_page.1, header_lem) (omega arith)

    zone_intact :
        debug ≡ true
        → check_redzone done.0.bytes done.1 (new_meta debug size mmap_size owner) header_offset
          ≡ true
    unfolding check_redzone install fill_redzone
    zone_intact on = rw on (
        intact-fill_bytes (redzone_span (new_meta true size mmap_size owner) header_offset)
          (wrap64 (region + header_offset) + (new_meta true size mmap_size owner).requested_size)
          (wrap64 (region + header_offset) + (new_meta true size mmap_size owner).requested_size)
          (redzone_span (new_meta true size mmap_size owner) header_offset) st.bytes (omega arith)
          (omega arith))

    freed : free os done.0 done.1 ≢ none
    unfolding new_meta
    freed = free_succeeds os done.0 done.1 (
        rw (owner_page.0, owner_page.1, header_lem)
          (elim (Bool-cases debug) [ inl on ↦ inr (zone_intact on) | inr off ↦ inl (rw off refl) ]))

    install-IsUsable : IsUsable os size header_offset done
    install-IsUsable = (omega (arith, user), omega (arith, usable), freed)

abbrev pub NullOrUsable : {Heap : Type 0} → PageHeap Heap → ℕ → ℕ → State Heap × ℕ → Type 0
NullOrUsable os size header_offset r = (r.1 ≡ 0) ⊎ IsUsable os size header_offset r

obtain-IsRegion :
    {Heap : Type 0} (os : PageHeap Heap) (debug : Bool) (st : State Heap) (n alignment : ℕ)
    → IsPageHeap os
    → AllRegions st.cache
    → IsRegion (obtain os debug st n alignment).1 n
unfolding obtain
obtain-IsRegion os true st n alignment promise regions = promise.aligned st.heap n alignment
obtain-IsRegion os false st n alignment promise regions =
    elim (Bool-cases ((Cache.take st.cache n).1 == 0)) [
      | inl z ↦ rw z (promise.aligned st.heap n alignment)
      | inr z ↦ rw z (take-IsRegion st.cache n regions)
    ]

equip-NullOrUsable :
    {Heap : Type 0} (os : PageHeap Heap) (config : Config) (st : State Heap)
    (region size n header_offset owner : ℕ)
    → IsRegion region n
    → header_offset < 65536
    → header_offset + size + (if config.debug then page_size else 0) ≤ n
    → NullOrUsable os size header_offset (equip os config st region size n header_offset owner)
unfolding equip
equip-NullOrUsable os config st region size n header_offset owner place header fits =
    elim (Bool-cases (region == 0)) [
      | inl z ↦ rw (z, equip) (inl refl)
      | inr z ↦
          elim (Bool-cases (
            config.debug && not (os.protect st.heap (wrap64 (region + n) - page_size) page_size))) [
              | inl refused ↦ rw (z, refused, equip) (inl refl)
              | inr ready ↦
                  rw (z, ready, equip)
                    (elim place [
                      | inl null ↦ absurd (ground arith)
                      | inr range ↦ inr (
                          install-IsUsable os st region size n header_offset owner
                            (λ e. ground arith) range.0 range.1 header config.debug fits)
                    ])
            ]
    ]

-- `large_alloc_with_offset`, over a page heap and a cache whose regions start on page borders, returns
-- NULL or a pointer at the header's offset in its page, with `v8m_large_usable_size` at least the
-- request, that `v8m_large_free` accepts; with the debug mode on and off.
pub large_or_null :
    {Heap : Type 0} (os : PageHeap Heap) (config : Config) (st : State Heap)
    (size header_offset j owner : ℕ)
    → IsPageHeap os
    → AllRegions st.cache
    → j ≤ 32
    → header_offset < 65536
    → NullOrUsable os size header_offset
        (alloc_with_offset os config st size header_offset (2 ^ j) owner)
large_or_null os config st size header_offset j owner promise regions hj ho =
    elim (Option-cases (region_size config.debug size header_offset (2 ^ j))) [
      | inl e ↦ inl (overflow e)
      | inr (n, e) ↦
          (let (fits, room) = region_size_lem config.debug size header_offset j n hj ho e in
            let got = obtain os config.debug st n (2 ^ j) in
            subst (NullOrUsable os size header_offset) (served n e) (
              equip-NullOrUsable os config got.0 got.1 size n header_offset owner
                (obtain-IsRegion os config.debug st n (2 ^ j) promise regions) ho fits))
    ]
  where
    overflow :
        region_size config.debug size header_offset (2 ^ j) ≡ none
        → (alloc_with_offset os config st size header_offset (2 ^ j) owner).1 ≡ 0
    overflow e = unfold alloc_with_offset in rw (e, alloc_with_offset) refl

    served :
        (n : ℕ)
        → region_size config.debug size header_offset (2 ^ j) ≡ some n
        → equip os config
            (obtain os config.debug st n (2 ^ j)).0
            (obtain os config.debug st n (2 ^ j)).1
            size
            n
            header_offset
            owner
          ≡ alloc_with_offset os config st size header_offset (2 ^ j) owner
    served n e = unfold alloc_with_offset in rw (e, alloc_with_offset) refl
