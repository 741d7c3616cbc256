-- ===== src/RegionMap/Fast.antt =====
-- The ownership query without the lock, and the verdict that each thread caches for a page.
use v8malloc.Prelude.{
  ℕ, ◌+◌, ◌*◌, ◌/◌, ◌%◌, ◌^◌, ◌≤◌, ◌<◌, ◌≡◌, refl, sym, ap, ◌∙◌, inl, inr, Bool, true, false, ◌&&◌,
  some, List, [], ◌∷◌, leb, ◌==◌, arith, Bool-cases, eq→==, length, Option-cases,
}
use v8malloc.Words.{wrap64}
use v8malloc.Words.Mask.{bits_and-invert}
use v8malloc.RegionMap.{
  Region, RegionMap, OwnsCache, View, capacity, page_of, owns_rounds, owns_fast, owns,
  register_with_flags, unregister_with_flags, region_find_by_start,
}
use v8malloc.RegionMap.Search.{IsSorted}
use v8malloc.RegionMap.Owns.{scan, owns-scan, view_owns-owns}

-- The regions begin and end on page borders, as those of `v8m_page_heap_alloc`'s callers do.
abbrev pub AllPaged : List Region → Type 0
AllPaged [] = Unit {0}
AllPaged (r ∷ rest) = (r.start % 65536 ≡ 0) × (r.end % 65536 ≡ 0) × AllPaged rest

page_of-eq : (a : ℕ) → a < 2 ^ 64 → page_of a ≡ a / 65536 * 65536
page_of-eq a h = bits_and-invert 64 16 a (omega arith) h ∙ omega arith

-- The addresses of a page are covered together.
scan-page :
    (rs : List Region) (a b : ℕ) → AllPaged rs → a / 65536 ≡ b / 65536 → scan rs a ≡ scan rs b
unfolding scan
scan-page [] a b h e = refl
scan-page (r ∷ rs) a b h e = let s = h.0 in let f = h.1 in ground (arith, scan-page rs a b h.2 e)

-- A cache is from an earlier state of the map, or it holds the verdict of its page.
pub record IsCoherent (m : RegionMap) (cache : OwnsCache) : Type 0 where
  pub past : cache.cache_seq ≤ m.seq
  pub current :
      cache.cache_seq ≡ m.seq
      → (a : ℕ) → a < 2 ^ 64
      → (a == 0) ≡ false
      → page_of a ≡ cache.page_base
      → cache.result ≡ owns m a

abbrev pub quiet_view : RegionMap → View
quiet_view m = record { seq1 = m.seq; table = m.regions; seq2 = m.seq }

owns-page :
    (m : RegionMap) (a b : ℕ)
    → IsSorted m.regions
    → AllPaged m.regions
    → a < 2 ^ 64
    → b < 2 ^ 64
    → (a == 0) ≡ false
    → (b == 0) ≡ false
    → page_of a ≡ page_of b
    → owns m a ≡ owns m b
owns-page m a b sorted paged la lb za zb e =
    let same : a / 65536 ≡ b / 65536 = omega (arith, e, page_of-eq a la, page_of-eq b lb) in
    owns-scan m a sorted
    ∙ rw (za, zb) (scan-page m.regions a b paged same)
    ∙ sym (owns-scan m b sorted)

module _ (m : RegionMap) (addr : ℕ) (views : List View) (cache : OwnsCache)
    (sorted : IsSorted m.regions) (paged : AllPaged m.regions) (stable : m.seq % 2 ≡ 0)
    (fits : addr < 2 ^ 64) (not_null : (addr == 0) ≡ false) where
  abbrev refreshed : OwnsCache
  refreshed = record { page_base = page_of addr; cache_seq = m.seq; result = owns m addr }

  first_round : owns_rounds (quiet_view m ∷ views) addr cache ≡ (refreshed, some (owns m addr))
  unfolding owns_rounds
  first_round =
      let even : (m.seq % 2 == 1) ≡ false = ground arith in
      let same : (m.seq == m.seq) ≡ true = eq→== m.seq m.seq refl in
      rw (even, same, view_owns-owns m addr sorted not_null) refl

  refreshed-IsCoherent : IsCoherent m refreshed
  refreshed-IsCoherent = record {
    past = omega arith;
    current = λ e a la za page. owns-page m addr a sorted paged fits la not_null za (sym page);
  }

-- `v8m_page_heap_owns_fast` on a map that no writer is changing, whose regions are sorted and lie on
-- page borders: it answers as the reader with the lock does, from the cache or from the table, and leaves
-- a cache that is coherent with the map.
pub owns_fast-owns :
    (m : RegionMap) (addr : ℕ) (views : List View) (cache : OwnsCache)
    → IsSorted m.regions
    → AllPaged m.regions
    → m.seq % 2 ≡ 0
    → addr < 2 ^ 64
    → IsCoherent m cache
    → let (cache', answer) = owns_fast m.seq (quiet_view m ∷ views) addr cache in
      (answer ≡ some (owns m addr)) × IsCoherent m cache'
unfolding owns_fast
owns_fast-owns m addr views cache sorted paged stable fits coherent =
    elim (Bool-cases (addr == 0)) [
      | inl z ↦ rw z (ap some (sym (rw (owns-scan m addr sorted, z) refl)), coherent)
      | inr z ↦
          elim (Bool-cases (
            (page_of addr == cache.page_base)
            && ((m.seq == cache.cache_seq) && (m.seq % 2 == 0)))) [
              | inl hit ↦
                  (let page : page_of addr ≡ cache.page_base = ground arith in
                    let now : cache.cache_seq ≡ m.seq = ground arith in
                    rw (z, hit) (ap some (coherent.current now addr fits z page), coherent))
              | inr miss ↦
                  rw (z, miss, first_round m addr views cache sorted paged stable fits z)
                    (refl, refreshed-IsCoherent m addr views cache sorted paged stable fits z)
            ]
    ]

moved-IsCoherent :
    (m m' : RegionMap) (cache : OwnsCache)
    → m.seq + 2 < 2 ^ 64
    → m'.seq ≡ wrap64 (m.seq + 1 + 1)
    → IsCoherent m cache
    → IsCoherent m' cache
moved-IsCoherent m m' cache room moved coherent =
    let p = coherent.past in
    record { past = omega arith; current = λ e a la za page. absurd (omega arith) }

-- A writer leaves every cache coherent, as long as the counter does not wrap around.
pub register-IsCoherent :
    (m : RegionMap) (cache : OwnsCache) (start bytes : ℕ) (is_anchor : Bool)
    → m.seq + 2 < 2 ^ 64
    → IsCoherent m cache
    → IsCoherent (register_with_flags m start bytes is_anchor).0 cache
      × IsCoherent (unregister_with_flags m start).0 cache
unfolding register_with_flags unregister_with_flags
register-IsCoherent m cache start bytes is_anchor room coherent = (
  elim (Bool-cases (leb capacity (length m.regions))) [
    | inl full ↦ rw full coherent
    | inr open_slot ↦ rw open_slot (moved-IsCoherent m _ cache room refl coherent)
  ],
  elim (Option-cases (region_find_by_start m.regions start)) [
    | inl e ↦ rw (e, unregister_with_flags) coherent
    | inr (idx, e) ↦ rw (e, unregister_with_flags) (moved-IsCoherent m _ cache room refl coherent)
  ],
)
