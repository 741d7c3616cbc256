-- ===== src/RegionMap/Validate.antt =====
-- The self-check of the region map.
use v8malloc.Prelude.{ℕ, ◌<◌, ◌≡◌, ◌↔◌, refl, List, [], ◌∷◌, arith}
use v8malloc.RegionMap.{Region, issues_after, validate}
use v8malloc.RegionMap.Search.{Above, IsSorted}

issues-Above :
    (prev : Region) (rest : List Region)
    → prev.start < prev.end
    → issues_after prev rest ≡ 0
    → Above prev.end rest
unfolding issues_after
issues-Above prev [] h e = tt
issues-Above prev (r ∷ rest) h e =
    let filled : r.start < r.end = ground arith in
    (ground arith, filled, issues-Above r rest filled (ground arith))

Above-issues :
    (prev : Region) (rest : List Region)
    → prev.start < prev.end
    → Above prev.end rest
    → issues_after prev rest ≡ 0
unfolding issues_after
Above-issues prev [] h a = refl
Above-issues prev (r ∷ rest) h a =
    let start = a.0 in let filled = a.1 in let tail = Above-issues r rest filled a.2 in ground arith

-- `v8m_page_heap_validate` counts no issue exactly when the map is sorted, without overlaps and without
-- empty ranges, given that its first range, which the loop never tests, is not empty.
pub validate-IsSorted :
    (first : Region) (rest : List Region) (seq : ℕ)
    → first.start < first.end
    → (validate (record { regions = first ∷ rest; seq = seq }) ≡ 0) ↔ IsSorted (first ∷ rest)
unfolding validate
validate-IsSorted first rest seq h =
    (λ e. (omega arith, h, issues-Above first rest h e), λ a. Above-issues first rest h a.2)
