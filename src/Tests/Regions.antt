-- ===== src/Tests/Regions.antt =====
-- Runs of the region map.
use v8malloc.Prelude.{
  ℕ, ◌+◌, ◌≤◌, ◌≡◌, ◌↔◌, refl, inl, inr, true, false, not, ◌&&◌, ◌||◌, some, [], ◌∷◌, ltb, leb,
  ◌==◌, arith, length, replicate, length-replicate,
}
use v8malloc.RegionMap.{
  Region, RegionMap, OwnsCache, no_region, node_unbound, capacity, owns, owns_fast, validate,
  register_with_flags, unregister_with_flags,
}
use v8malloc.RegionMap.Search.{IsSorted}
use v8malloc.RegionMap.Owns.{scan, owns-scan}
use v8malloc.RegionMap.Laws.{unregister-register}
use v8malloc.RegionMap.Fast.{IsCoherent, quiet_view, owns_fast-owns, register-IsCoherent}
use v8malloc.RegionMap.Validate.{validate-IsSorted}

abbrev region : ℕ → ℕ → Region
region start end = record {
  start = start;
  end = end;
  node = node_unbound;
  is_anchor = false;
  promoted_at_tsc = 0;
}

-- Two regions with a page between them.
abbrev two : RegionMap
two = record { regions = region 65536 131072 ∷ region 196608 327680 ∷ []; seq = 4 }

abbrev blank_cache : OwnsCache
blank_cache = record { page_base = 0; cache_seq = 0; result = false }

two-IsSorted : IsSorted two.regions
two-IsSorted = (omega arith, omega arith, (omega arith, omega arith, tt))

two-IsCoherent : IsCoherent two blank_cache
two-IsCoherent = record { past = omega arith; current = λ e a la za page. absurd (omega arith) }

owns-scan_example : owns two 200000 ≡ (not (200000 == 0) && scan two.regions 200000)
owns-scan_example = owns-scan two 200000 two-IsSorted

unregister-register_example :
    let m' = (register_with_flags two 131072 65536 true).0 in
    let ok = (register_with_flags two 131072 65536 true).1 in
    let undone = unregister_with_flags m' 131072 in
    (ok ≡ true)
    × IsSorted m'.regions
    × ((a : ℕ)
        → scan m'.regions a ≡ (scan two.regions a || (leb 131072 a && ltb a (131072 + 65536))))
    × (undone.0.regions ≡ two.regions)
    × (undone.1 ≡ node_unbound)
    × (undone.2 ≡ true)
unregister-register_example =
    unregister-register two 131072 65536 true two-IsSorted (omega arith) (omega arith)
      (inr (omega arith), (inl (omega arith), tt)) (omega arith)

abbrev crowded : RegionMap
crowded = record { regions = replicate 4096 no_region; seq = 0 }

crowded_length : capacity ≤ length crowded.regions
crowded_length = omega (arith, length-replicate 4096 no_region)

owns_fast-owns_example :
    let (cache', answer) = owns_fast two.seq (quiet_view two ∷ []) 200000 blank_cache in
    (answer ≡ some (owns two 200000)) × IsCoherent two cache'
owns_fast-owns_example =
    owns_fast-owns two 200000 [] blank_cache two-IsSorted (refl, refl, (refl, refl, tt)) refl
      (omega arith) two-IsCoherent

register-IsCoherent_example :
    IsCoherent (register_with_flags two 131072 65536 true).0 blank_cache
    × IsCoherent (unregister_with_flags two 131072).0 blank_cache
register-IsCoherent_example =
    register-IsCoherent two blank_cache 131072 65536 true (omega arith) two-IsCoherent

validate-IsSorted_example : (validate two ≡ 0) ↔ IsSorted two.regions
validate-IsSorted_example =
    validate-IsSorted (region 65536 131072) (region 196608 327680 ∷ []) 4 (omega arith)
