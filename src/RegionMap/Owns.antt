-- ===== src/RegionMap/Owns.antt =====
-- The ownership query against a scan of the whole table.
use v8malloc.Prelude.{
  ℕ, zero, suc, ◌-◌, ◌≤◌, ◌<◌, ◌≡◌, refl, sym, inl, inr, Bool, true, false, not, ◌&&◌, ◌||◌, List,
  [], ◌∷◌, ltb, leb, ◌==◌, if◌then◌else◌, arith, Bool-cases, length,
}
use v8malloc.RegionMap.{Region, RegionMap, region_at, upper_bound, owns, view_owns}
use v8malloc.RegionMap.Search.{IsEdge, Above, IsSorted, Above-start, upper_bound-IsEdge}

abbrev pub covers : Region → ℕ → Bool
covers r addr = leb r.start addr && ltb addr r.end

-- Whether any region of the table covers the address.
unfoldable pub scan : List Region → ℕ → Bool
scan [] addr = false
scan (r ∷ rest) addr = covers r addr || scan rest addr

pub scan-Above : (lo : ℕ) (rs : List Region) (a : ℕ) → Above lo rs → a < lo → scan rs a ≡ false
unfolding scan
scan-Above lo [] a h k = refl
scan-Above lo (r ∷ rs) a h k =
    let s = h.0 in let e = h.1 in ground (arith, scan-Above r.end rs a h.2 (omega arith))

IsEdge-tail :
    (r : Region) (rs : List Region) (a k : ℕ)
    → IsEdge (λ i. leb (region_at (r ∷ rs) i).start a) 0 (suc (length rs)) (suc k)
    → IsEdge (λ i. leb (region_at rs i).start a) 0 (length rs) k
IsEdge-tail r rs a k e = record {
  from = omega arith;
  to = omega (arith, e.to);
  before = λ i x y. e.before (suc i) (omega arith) (omega arith);
  after = λ i x y. e.after (suc i) (omega arith) (omega arith);
}

-- The region before the edge is the only one that may cover the address.
scan-edge :
    (lo : ℕ) (rs : List Region) (a k : ℕ)
    → Above lo rs
    → IsEdge (λ i. leb (region_at rs i).start a) 0 (length rs) k
    → scan rs a ≡ (if ltb 0 k then ltb a (region_at rs (k - 1)).end else false)
unfolding scan
scan-edge lo [] a k h e = let z = e.to in ground arith
scan-edge lo (r ∷ rs) a zero h e =
    let s : a < r.start = let x = e.after 0 (omega arith) (omega arith) in ground arith in
    let l = h.1 in ground (arith, scan-Above r.end rs a h.2 (omega arith))
scan-edge lo (r ∷ rs) a (suc zero) h e =
    let s : r.start ≤ a = let x = e.before 0 (omega arith) (omega arith) in ground arith in
    let none_later = scan-edge r.end rs a 0 h.2 (IsEdge-tail r rs a 0 e) in ground arith
scan-edge lo (r ∷ rs) a (suc (suc k)) h e =
    let s : r.start ≤ a = let x = e.before 0 (omega arith) (omega arith) in ground arith in
    let next : (region_at rs 0).start ≤ a =
      let x = e.before 1 (omega arith) (omega arith) in ground arith in
    let over = Above-start r.end rs 0 h.2 (omega (arith, e.to)) in
    let past : ltb a r.end ≡ false = ground arith in
    let i : suc (suc k) - 1 ≡ suc k = omega arith in
    let j : suc k - 1 ≡ k = omega arith in
    let later = scan-edge r.end rs a (suc k) h.2 (IsEdge-tail r rs a (suc k) e) in
    rw (past, i) (ground (arith, later, j))

-- On a sorted table the binary search of `v8m_page_heap_owns` answers as a scan of all regions does, for
-- any address but NULL, which nothing owns.
pub owns-scan :
    (m : RegionMap) (addr : ℕ)
    → IsSorted m.regions
    → owns m addr ≡ (not (addr == 0) && scan m.regions addr)
unfolding owns
owns-scan m addr h =
    let e =
      scan-edge 0 m.regions addr (upper_bound m.regions addr) h
        (upper_bound-IsEdge m.regions h addr) in
    elim (Bool-cases (addr == 0)) [ inl z ↦ rw z refl | inr z ↦ rw z (sym e) ]

-- A reader without the lock that sees the whole table decides as the reader with the lock does.
pub view_owns-owns :
    (m : RegionMap) (addr : ℕ)
    → IsSorted m.regions
    → (addr == 0) ≡ false
    → view_owns m.regions addr ≡ owns m addr
unfolding view_owns owns
view_owns-owns m addr h z =
    let e = upper_bound-IsEdge m.regions h addr in
    let within = e.to in
    let k = upper_bound m.regions addr in
    elim (Bool-cases (ltb 0 k)) [
      | inl t ↦
          (let start =
              e.before (k - 1) (omega arith) (let l : 0 < k = ground arith in omega arith) in
            let fits : leb k (length m.regions) ≡ true = ground arith in
            rw (t, fits, start, z) refl)
      | inr t ↦ rw (t, z) refl
    ]
