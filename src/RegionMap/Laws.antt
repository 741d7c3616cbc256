-- ===== src/RegionMap/Laws.antt =====
-- Registering and unregistering a region, and the self-check.
use v8malloc.Prelude.{
  ℕ, zero, suc, ◌+◌, ◌^◌, ◌≤◌, ◌<◌, ◌≡◌, ◌⊎◌, refl, ap, inl, inr, Bool, true, false, ◌&&◌, ◌||◌,
  some, List, [], ◌∷◌, ltb, leb, ◌==◌, arith, eq→==, length,
}
use v8malloc.Words.{wrap64}
use v8malloc.RegionMap.{
  Region, RegionMap, region_at, node_unbound, capacity, insert_at, remove_at, region_lower_bound,
  region_find_by_start, register_with_flags, unregister_with_flags,
}
use v8malloc.RegionMap.Search.{
  IsEdge, IsEdge-unique, Above, IsSorted, starts_mono, lower_bound-IsEdge,
}
use v8malloc.RegionMap.Owns.{covers, scan}

-- The new range meets no region of the table, as the ranges that `mmap` returns do.
abbrev pub IsApart : ℕ → ℕ → List Region → Type 0
IsApart start end [] = Unit {0}
IsApart start end (r ∷ rest) = ((end ≤ r.start) ⊎ (r.end ≤ start)) × IsApart start end rest

abbrev StartsBelow : ℕ → List Region → ℕ → Type 0
StartsBelow x rs k = IsEdge (λ i. ltb (region_at rs i).start x) 0 (length rs) k

IsEdge-tail :
    (x : ℕ) (r : Region) (rs : List Region) (k : ℕ)
    → StartsBelow x (r ∷ rs) (suc k)
    → StartsBelow x rs k
IsEdge-tail x r rs k e = record {
  from = omega arith;
  to = omega (arith, e.to);
  before = λ i a b. e.before (suc i) (omega arith) (omega arith);
  after = λ i a b. e.after (suc i) (omega arith) (omega arith);
}

Above-weaken : (lo lo' : ℕ) (rs : List Region) → lo' ≤ lo → Above lo rs → Above lo' rs
Above-weaken lo lo' [] h a = tt
Above-weaken lo lo' (r ∷ rs) h a = (omega (arith, a.0), a.1, a.2)

module _ (new : Region) (filled : new.start < new.end) where
  insert_at-Above :
      (lo : ℕ) (rs : List Region) (k : ℕ)
      → lo ≤ new.start
      → Above lo rs
      → IsApart new.start new.end rs
      → StartsBelow new.start rs k
      → Above lo (insert_at rs k new)
  insert_at-Above lo [] zero h a p e = (h, filled, tt)
  insert_at-Above lo (r ∷ rs) zero h a p e =
      let later : new.start ≤ r.start =
        let x = e.after 0 (omega arith) (omega arith) in ground arith in
      let ends : new.end ≤ r.start = elim p.0 [
        | inl q ↦ q
        | inr q ↦ let f = a.1 in absurd (omega arith)
      ] in
      (h, filled, (ends, a.1, a.2))
  insert_at-Above lo [] (suc k) h a p e = (h, filled, tt)
  insert_at-Above lo (r ∷ rs) (suc k) h a p e =
      let earlier : r.start < new.start =
        let x = e.before 0 (omega arith) (omega arith) in ground arith in
      let ends : r.end ≤ new.start = elim p.0 [ inl q ↦ absurd (omega arith) | inr q ↦ q ] in
      (a.0, a.1, insert_at-Above r.end rs k ends a.2 p.1 (IsEdge-tail new.start r rs k e))

  scan-insert_at :
      (rs : List Region) (k a : ℕ) → scan (insert_at rs k new) a ≡ (scan rs a || covers new a)
  unfolding scan
  scan-insert_at [] zero a = ground arith
  scan-insert_at (r ∷ rs) zero a = ground arith
  scan-insert_at [] (suc k) a = ground arith
  scan-insert_at (r ∷ rs) (suc k) a = ground (arith, scan-insert_at rs k a)

  remove_at-insert_at :
      (rs : List Region) (k : ℕ) → k ≤ length rs → remove_at (insert_at rs k new) k ≡ rs
  remove_at-insert_at rs zero h = refl
  remove_at-insert_at [] (suc k) h = absurd (omega arith)
  remove_at-insert_at (r ∷ rs) (suc k) h = ap (λ x. r ∷ x) (remove_at-insert_at rs k (omega arith))

  region_at-insert_at :
      (rs : List Region) (k : ℕ) → k ≤ length rs → region_at (insert_at rs k new) k ≡ new
  region_at-insert_at rs zero h = refl
  region_at-insert_at [] (suc k) h = absurd (omega arith)
  region_at-insert_at (r ∷ rs) (suc k) h = region_at-insert_at rs k (omega arith)

  length-insert_at : (rs : List Region) (k : ℕ) → length (insert_at rs k new) ≡ suc (length rs)
  length-insert_at rs zero = refl
  length-insert_at [] (suc k) = refl
  length-insert_at (r ∷ rs) (suc k) = ap suc (length-insert_at rs k)

  region_at-insert_before :
      (rs : List Region) (k i : ℕ)
      → k ≤ length rs
      → i < k
      → region_at (insert_at rs k new) i ≡ region_at rs i
  region_at-insert_before rs zero i h l = absurd (omega arith)
  region_at-insert_before [] (suc k) i h l = absurd (omega arith)
  region_at-insert_before (r ∷ rs) (suc k) zero h l = refl
  region_at-insert_before (r ∷ rs) (suc k) (suc i) h l =
      region_at-insert_before rs k i (omega arith) (omega arith)

  -- The new region stands where a search for its start arrives.
  edge-insert_at :
      (rs : List Region) (k : ℕ)
      → IsSorted (insert_at rs k new)
      → StartsBelow new.start rs k
      → StartsBelow new.start (insert_at rs k new) k
  edge-insert_at rs k sorted e =
      let here = region_at-insert_at rs k e.to in
      record {
        from = omega arith;
        to = omega (arith, e.to, length-insert_at rs k);
        before = λ i a b. rw (region_at-insert_before rs k i e.to b) (e.before i a b);
        after = λ i a b.
            let m = starts_mono 0 (insert_at rs k new) k i sorted a b in
            let s : (region_at (insert_at rs k new) k).start ≡ new.start = ap (λ r. r.start) here in
            ground arith;
      }

abbrev pub new_region : ℕ → ℕ → Bool → Region
new_region start bytes is_anchor = record {
  start = start;
  end = start + bytes;
  node = node_unbound;
  is_anchor = is_anchor;
  promoted_at_tsc = 0;
}

module _ (m : RegionMap) (start bytes : ℕ) (is_anchor : Bool) (sorted : IsSorted m.regions)
    (size : 0 < bytes) (room : start + bytes < 2 ^ 64)
    (apart : IsApart start (start + bytes) m.regions)
    (open_slot : length m.regions < capacity) where
  abbrev idx : ℕ
  idx = region_lower_bound m.regions start

  abbrev grown : RegionMap
  grown = record {
    regions = insert_at m.regions idx (new_region start bytes is_anchor);
    seq = wrap64 (m.seq + 1 + 1);
  }

  register_eq : register_with_flags m start bytes is_anchor ≡ (grown, true)
  unfolding register_with_flags
  register_eq =
      let fits : leb capacity (length m.regions) ≡ false = ground arith in
      let end : wrap64 (start + bytes) ≡ start + bytes = omega arith in rw (fits, end) refl

  grown-IsSorted : IsSorted grown.regions
  grown-IsSorted =
      insert_at-Above (new_region start bytes is_anchor) (omega arith) 0 m.regions idx (omega arith)
        sorted apart (lower_bound-IsEdge m.regions sorted start)

  found : region_find_by_start grown.regions start ≡ some idx
  unfolding region_find_by_start
  found =
      let new = new_region start bytes is_anchor in
      let filled : start < start + bytes = omega arith in
      let e = lower_bound-IsEdge m.regions sorted start in
      let at =
        IsEdge-unique (λ i. ltb (region_at grown.regions i).start start) 0 (length grown.regions)
          (region_lower_bound grown.regions start) idx
          (lower_bound-IsEdge grown.regions grown-IsSorted start)
          (edge-insert_at new filled m.regions idx grown-IsSorted e) in
      let here = region_at-insert_at new filled m.regions idx e.to in
      let lt : ltb idx (length grown.regions) ≡ true =
        let l = length-insert_at new filled m.regions idx in let t = e.to in ground arith in
      let same : (start == start) ≡ true = eq→== start start refl in rw (at, lt, here, same) refl

  unregister_eq :
      unregister_with_flags grown start
      ≡ (record { regions = m.regions; seq = wrap64 (grown.seq + 1 + 1) }, node_unbound, is_anchor)
  unfolding unregister_with_flags
  unregister_eq =
      let new = new_region start bytes is_anchor in
      let filled : start < start + bytes = omega arith in
      let e = lower_bound-IsEdge m.regions sorted start in
      rw
        (
          found,
          region_at-insert_at new filled m.regions idx e.to,
          remove_at-insert_at new filled m.regions idx e.to,
          unregister_with_flags,
        )
        refl

-- `region_register_with_flags` of a range that is not empty and meets no region, in a map that is sorted
-- and not full, succeeds, keeps the map sorted, and adds exactly the addresses of the range; and
-- `region_unregister_with_flags` of its start gives back the regions as they were, with no node and the
-- flag that was given.
pub unregister-register :
    (m : RegionMap) (start bytes : ℕ) (is_anchor : Bool)
    → IsSorted m.regions
    → 0 < bytes
    → start + bytes < 2 ^ 64
    → IsApart start (start + bytes) m.regions
    → length m.regions < capacity
    → let (m', ok) = register_with_flags m start bytes is_anchor in
      let (back, node, anchor) = unregister_with_flags m' start in
      (ok ≡ true)
      × IsSorted m'.regions
      × ((a : ℕ) → scan m'.regions a ≡ (scan m.regions a || (leb start a && ltb a (start + bytes))))
      × (back.regions ≡ m.regions)
      × (node ≡ node_unbound)
      × (anchor ≡ is_anchor)
unregister-register m start bytes is_anchor sorted size room apart open_slot =
    let new = new_region start bytes is_anchor in
    let filled : start < start + bytes = omega arith in
    rw
      (
        register_eq m start bytes is_anchor sorted size room apart open_slot,
        unregister_eq m start bytes is_anchor sorted size room apart open_slot,
      )
      (
        refl,
        grown-IsSorted m start bytes is_anchor sorted size room apart open_slot,
        scan-insert_at new filled m.regions (region_lower_bound m.regions start),
        refl,
        refl,
        refl,
      )

-- A full map refuses a region and stays as it is.
pub register-full :
    (m : RegionMap) (start bytes : ℕ) (is_anchor : Bool)
    → capacity ≤ length m.regions
    → register_with_flags m start bytes is_anchor ≡ (m, false)
unfolding register_with_flags
register-full m start bytes is_anchor h =
    let full : leb capacity (length m.regions) ≡ true = ground arith in rw full refl
