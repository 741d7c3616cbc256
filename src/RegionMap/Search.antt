-- ===== src/RegionMap/Search.antt =====
-- Binary search over a test that holds on a prefix, and the sorted tables that give such tests.
use v8malloc.Prelude.{
  ℕ, zero, suc, ◌+◌, ◌-◌, ◌/◌, ◌≤◌, ◌<◌, ◌≡◌, inl, inr, Bool, true, false, List, [], ◌∷◌, ltb, leb,
  arith, Bool-cases, length,
}
use v8malloc.RegionMap.{Region, region_at, search, region_lower_bound, upper_bound}

-- `k` is where the test turns from `true` to `false` within the range.
pub record IsEdge (p : ℕ → Bool) (low high k : ℕ) : Type 0 where
  pub from : low ≤ k
  pub to : k ≤ high
  pub before : (i : ℕ) → low ≤ i → i < k → p i ≡ true
  pub after : (i : ℕ) → k ≤ i → i < high → p i ≡ false

-- The search finds the edge of a test that, once `false`, stays `false`.
pub search-IsEdge :
    (p : ℕ → Bool) (n : ℕ)
    → ((i j : ℕ) → i ≤ j → j < n → p j ≡ true → p i ≡ true)
    → (fuel low high : ℕ) → low ≤ high
    → high ≤ n
    → high ≤ low + fuel
    → IsEdge p low high (search fuel p low high)
unfolding search
search-IsEdge p n mono zero low high h hn f = record {
  from = omega arith;
  to = omega arith;
  before = λ i a b. absurd (omega arith);
  after = λ i a b. absurd (omega arith);
}
search-IsEdge p n mono (suc fuel) low high h hn f = elim (Bool-cases (ltb low high)) [
  | inr e ↦ rw e (record {
    from = omega arith;
    to = omega arith;
    before = λ i a b. absurd (omega arith);
    after = λ i a b. absurd (ground arith);
  })
  | inl l ↦
      (let mid = low + (high - low) / 2 in
        let lt : low < high = ground arith in
        elim (Bool-cases (p mid)) [
          | inl t ↦
              (let e = search-IsEdge p n mono fuel (mid + 1) high (omega arith) hn (omega arith) in
                rw (l, t)
                  (record {
                    from = omega (arith, e.from);
                    to = e.to;
                    before = λ i a b. elim (Bool-cases (leb i mid)) [
                      | inl u ↦ mono i mid (ground arith) (omega arith) t
                      | inr u ↦ e.before i (ground arith) b
                    ];
                    after = λ i a b. e.after i a b;
                  }))
          | inr t ↦
              (let e =
                  search-IsEdge p n mono fuel low mid (omega arith) (omega arith) (omega arith) in
                rw (l, t)
                  (record {
                    from = e.from;
                    to = omega (arith, e.to);
                    before = λ i a b. e.before i a b;
                    after = λ i a b. elim (Bool-cases (leb mid i)) [
                      | inl u ↦ elim (Bool-cases (p i)) [
                        | inl q ↦
                            (let bad = mono mid i (ground arith) (omega arith) q in ground arith)
                        | inr q ↦ q
                      ]
                      | inr u ↦ e.after i a (ground arith)
                    ];
                  }))
        ])
]

-- A test has one edge.
pub IsEdge-unique :
    (p : ℕ → Bool) (low high j k : ℕ) → IsEdge p low high j → IsEdge p low high k → j ≡ k
IsEdge-unique p low high j k a b = elim (Bool-cases (ltb j k)) [
  | inl t ↦
      (let x = b.before j a.from (ground arith) in
        let y = a.after j (omega arith) (let l : j < k = ground arith in omega (arith, b.to)) in
        ground arith)
  | inr f ↦ elim (Bool-cases (ltb k j)) [
    | inl t ↦
        (let x = a.before k b.from (ground arith) in
          let y = b.after k (omega arith) (let l : k < j = ground arith in omega (arith, a.to)) in
          ground arith)
    | inr g ↦ ground arith
  ]
]

-- Each region is not empty and starts where the one before it has ended, or later.
abbrev pub Above : ℕ → List Region → Type 0
Above lo [] = Unit {0}
Above lo (r ∷ rest) = (lo ≤ r.start) × (r.start < r.end) × Above r.end rest

abbrev pub IsSorted : List Region → Type 0
IsSorted regions = Above 0 regions

pub Above-start :
    (lo : ℕ) (rs : List Region) (i : ℕ) → Above lo rs → i < length rs → lo ≤ (region_at rs i).start
Above-start lo [] i a h = absurd (omega arith)
Above-start lo (r ∷ rs) zero a h = a.0
Above-start lo (r ∷ rs) (suc i) a h =
    omega (arith, Above-start r.end rs i a.2 (omega arith), a.0, a.1)

pub starts_mono :
    (lo : ℕ) (rs : List Region) (i j : ℕ)
    → Above lo rs
    → i ≤ j
    → j < length rs
    → (region_at rs i).start ≤ (region_at rs j).start
starts_mono lo [] i j a h k = absurd (omega arith)
starts_mono lo (r ∷ rs) zero zero a h k = omega arith
starts_mono lo (r ∷ rs) zero (suc j) a h k =
    omega (arith, Above-start r.end rs j a.2 (omega arith), a.1)
starts_mono lo (r ∷ rs) (suc i) zero a h k = absurd (omega arith)
starts_mono lo (r ∷ rs) (suc i) (suc j) a h k =
    starts_mono r.end rs i j a.2 (omega arith) (omega arith)

module _ (rs : List Region) (sorted : IsSorted rs) (x : ℕ) where
  pub lower_bound-IsEdge :
      IsEdge (λ i. ltb (region_at rs i).start x) 0 (length rs) (region_lower_bound rs x)
  unfolding region_lower_bound
  lower_bound-IsEdge =
      search-IsEdge (λ i. ltb (region_at rs i).start x) (length rs)
        (λ i j h k t. let m = starts_mono 0 rs i j sorted h k in ground arith) (length rs) 0
        (length rs) (omega arith) (omega arith) (omega arith)

  pub upper_bound-IsEdge :
      IsEdge (λ i. leb (region_at rs i).start x) 0 (length rs) (upper_bound rs x)
  unfolding upper_bound
  upper_bound-IsEdge =
      search-IsEdge (λ i. leb (region_at rs i).start x) (length rs)
        (λ i j h k t. let m = starts_mono 0 rs i j sorted h k in ground arith) (length rs) 0
        (length rs) (omega arith) (omega arith) (omega arith)
