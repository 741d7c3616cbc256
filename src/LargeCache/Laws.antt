-- ===== src/LargeCache/Laws.antt =====
-- The recycle cache neither loses nor invents a region.
use v8malloc.Prelude.{
  ℕ, zero, suc, ◌+◌, ◌-◌, ◌≤◌, ◌<◌, ◌≡◌, refl, sym, ap, ◌∙◌, inl, inr, Bool, true, ◌&&◌, none, some,
  List, [], ◌∷◌, ◌++◌, ltb, ◌==◌, if◌then◌else◌, arith, Bool-cases, Option-cases, ==→eq, eq→==,
  ltb→lt, subst, length, length-append, length-set, get_or, set,
}
use v8malloc.LargeCache.{Entry, no_entry, cache_cap, find_size, drop_last, take, put}

abbrev pub is_entry : ℕ → ℕ → Entry → Bool
is_entry region size e = (e.region == region) && (e.mmap_size == size)

-- How often a region of a size stands in the cache.
unfoldable pub copies : ℕ → ℕ → List Entry → ℕ
unfolding is_entry
copies region size [] = 0
copies region size (e ∷ rest) = (if is_entry region size e then 1 else 0) + copies region size rest

pub find_size-some :
    (cache : List Entry) (size i : ℕ)
    → find_size cache size ≡ some i
    → (i < length cache) × ((get_or cache i no_entry).mmap_size ≡ size)
unfolding find_size
find_size-some [] size i h = ground arith
find_size-some (e ∷ rest) size i h = elim (Bool-cases (e.mmap_size == size)) [
  | inl t ↦
      (let z : 0 ≡ i = ground arith in
        subst (λ x. (x < suc (length rest)) × ((get_or (e ∷ rest) x no_entry).mmap_size ≡ size)) z
          (omega arith, ==→eq _ _ t))
  | inr f ↦ elim (Option-cases (find_size rest size)) [
    | inl n ↦ ground arith
    | inr (j, q) ↦
        (let z : suc j ≡ i = ground arith in
          let ih = find_size-some rest size j q in
          subst (λ x. (x < suc (length rest)) × ((get_or (e ∷ rest) x no_entry).mmap_size ≡ size)) z
            (omega (arith, ih.0), ih.1))
  ]
]

-- The search finds a region where the cache holds one of the size.
find_size-holds :
    (cache : List Entry) (size i : ℕ)
    → i < length cache
    → (get_or cache i no_entry).mmap_size ≡ size
    → (j : ℕ) × (find_size cache size ≡ some j)
unfolding find_size
find_size-holds [] size i h e = absurd (omega arith)
find_size-holds (x ∷ rest) size zero h e =
    let t : (x.mmap_size == size) ≡ true = eq→== _ _ e in (0, rw t refl)
find_size-holds (x ∷ rest) size (suc i) h e =
    let (j, found) = find_size-holds rest size i (omega arith) e in
    elim (Bool-cases (x.mmap_size == size)) [
      | inl t ↦ (0, rw t refl)
      | inr f ↦ (suc j, rw (f, found) refl)
    ]

module _ (region size : ℕ) where
  abbrev weight : Entry → ℕ
  weight e = if is_entry region size e then 1 else 0

  copies-set :
      (xs : List Entry) (i : ℕ) (v : Entry)
      → i < length xs
      → copies region size (set xs i v) + weight (get_or xs i no_entry)
        ≡ copies region size xs + weight v
  unfolding copies
  copies-set [] i v h = absurd (omega arith)
  copies-set (x ∷ xs) zero v h = omega arith
  copies-set (x ∷ xs) (suc i) v h = omega (arith, copies-set xs i v (omega arith))

  abbrev last : List Entry → Entry
  last [] = no_entry
  last (e ∷ []) = e
  last (e ∷ f ∷ rest) = last (f ∷ rest)

  get_or-last : (xs : List Entry) → get_or xs (length xs - 1) no_entry ≡ last xs
  get_or-last [] = refl
  get_or-last (e ∷ []) = refl
  get_or-last (e ∷ f ∷ rest) =
      let out : suc (suc (length rest)) - 1 ≡ suc (length rest) = omega arith in
      let inn : length rest ≡ suc (length rest) - 1 = omega arith in
      ap (λ n. get_or (e ∷ f ∷ rest) n no_entry) out
      ∙ ap (λ n. get_or (f ∷ rest) n no_entry) inn
      ∙ get_or-last (f ∷ rest)

  copies-drop_last :
      (e : Entry) (xs : List Entry)
      → copies region size (drop_last (e ∷ xs)) + weight (last (e ∷ xs))
        ≡ copies region size (e ∷ xs)
  unfolding copies
  copies-drop_last e [] = omega arith
  copies-drop_last e (f ∷ rest) = omega (arith, copies-drop_last f rest)

  length-drop_last : (e : Entry) (xs : List Entry) → length (drop_last (e ∷ xs)) ≡ length xs
  length-drop_last e [] = refl
  length-drop_last e (f ∷ rest) = ap suc (length-drop_last f rest)

  get_or-drop_last :
      (xs : List Entry) (i : ℕ)
      → i < length (drop_last xs)
      → get_or (drop_last xs) i no_entry ≡ get_or xs i no_entry
  get_or-drop_last [] i h = absurd (omega arith)
  get_or-drop_last (e ∷ []) i h = absurd (omega arith)
  get_or-drop_last (e ∷ f ∷ rest) zero h = refl
  get_or-drop_last (e ∷ f ∷ rest) (suc i) h = get_or-drop_last (f ∷ rest) i (omega arith)

  -- Moving the last entry to the place of another drops that other one.
  copies-drop :
      (e : Entry) (xs : List Entry) (i : ℕ)
      → i < suc (length xs)
      → copies region size (
            if ltb i (length (drop_last (e ∷ xs)))
            then set (drop_last (e ∷ xs)) i (last (e ∷ xs))
            else drop_last (e ∷ xs))
          + weight (get_or (e ∷ xs) i no_entry)
        ≡ copies region size (e ∷ xs)
  copies-drop e xs i h = elim (Bool-cases (ltb i (length (drop_last (e ∷ xs))))) [
    | inl t ↦
        (let lt = ltb→lt _ _ t in
          let moved = copies-set (drop_last (e ∷ xs)) i (last (e ∷ xs)) lt in
          let same = ap weight (get_or-drop_last (e ∷ xs) i lt) in
          rw t (omega (arith, moved, same, copies-drop_last e xs)))
    | inr f ↦
        (let i_last : length (e ∷ xs) - 1 ≡ i = let l = length-drop_last e xs in ground arith in
          let same =
            ap weight (ap (λ n. get_or (e ∷ xs) n no_entry) (sym i_last) ∙ get_or-last (e ∷ xs)) in
          rw f (omega (arith, same, copies-drop_last e xs)))
  ]

pub copies-append :
    (region size : ℕ) (xs ys : List Entry)
    → copies region size (xs ++ ys) ≡ copies region size xs + copies region size ys
unfolding copies
copies-append region size [] ys = omega arith
copies-append region size (e ∷ xs) ys = omega (arith, copies-append region size xs ys)

copies-take :
    (cache : List Entry) (size i : ℕ)
    → find_size cache size ≡ some i
    → (region other : ℕ)
    → copies region other (take cache size).0
        + (if is_entry region other (record { region = (take cache size).1; mmap_size = size })
            then 1
            else 0)
      ≡ copies region other cache
unfolding take
copies-take [] size i h region other =
    absurd (let b = (find_size-some [] size i h).0 in omega arith)
copies-take (e ∷ xs) size i h region other =
    let (bound, sized) = find_size-some (e ∷ xs) size i h in
    let moved = λ (v : Entry).
      if ltb i (length (drop_last (e ∷ xs)))
      then set (drop_last (e ∷ xs)) i v
      else drop_last (e ∷ xs) in
    let r = (get_or (e ∷ xs) i no_entry).region in
    let base =
      subst
        (λ n.
          copies region other (moved (last region other (e ∷ xs)))
            + (if (r == region) && (n == other) then 1 else 0)
          ≡ copies region other (e ∷ xs))
        sized (copies-drop region other e xs i bound) in
    rw (h, take)
      (subst
        (λ v.
          copies region other (moved v) + (if (r == region) && (size == other) then 1 else 0)
          ≡ copies region other (e ∷ xs))
        (sym (get_or-last region other (e ∷ xs))) base)

length-take :
    (cache : List Entry) (size i : ℕ)
    → find_size cache size ≡ some i
    → suc (length (take cache size).0) ≡ length cache
unfolding take
length-take [] size i h = absurd (let b = (find_size-some [] size i h).0 in omega arith)
length-take (e ∷ xs) size i h =
    let shorter = length-drop_last 0 0 e xs in
    let v = get_or (e ∷ xs) (length (e ∷ xs) - 1) no_entry in
    elim (Bool-cases (ltb i (length (drop_last (e ∷ xs))))) [
      | inl t ↦ rw (h, take, t) (omega (arith, length-set (drop_last (e ∷ xs)) i v))
      | inr f ↦ rw (h, take, f) (omega arith)
    ]

-- `large_cache_take` from a cache that holds a region of the size returns one that the cache holds with
-- that size, and takes away that one entry: the cache is one shorter, and every region stands in it, with
-- the one returned, as often as before.
pub take-copies :
    (cache : List Entry) (size i : ℕ)
    → i < length cache
    → (get_or cache i no_entry).mmap_size ≡ size
    → (suc (length (take cache size).0) ≡ length cache)
      × ((region other : ℕ)
          → copies region other (take cache size).0
              + (if is_entry region other
                    (record { region = (take cache size).1; mmap_size = size })
                  then 1
                  else 0)
            ≡ copies region other cache)
take-copies cache size i h e =
    let (j, found) = find_size-holds cache size i h e in
    (length-take cache size j found, copies-take cache size j found)

-- `large_cache_put` never holds more than eight regions, and the cache afterwards with the evicted region
-- holds every region as often as the cache before with the new one.
pub put-copies :
    (cache : List Entry) (new_region new_size : ℕ)
    → length cache ≤ cache_cap
    → let (cache', evicted) = put cache new_region new_size in
      (length cache' ≤ cache_cap)
      × ((region size : ℕ)
          → copies region size cache'
              + elim evicted [ none ↦ 0 | some e ↦ (if is_entry region size e then 1 else 0) ]
            ≡ copies region size cache
              + (if is_entry region size (record { region = new_region; mmap_size = new_size })
                  then 1
                  else 0))
unfolding put copies
put-copies [] new_region new_size h = (omega arith, λ region size. omega arith)
put-copies (e ∷ xs) new_region new_size h =
    let entry : Entry = record { region = new_region; mmap_size = new_size } in
    elim (Bool-cases (suc (length xs) == cache_cap)) [
      | inl t ↦
          rw (t, put)
            (
              let full = ==→eq _ _ t in omega (arith, length-append xs (entry ∷ [])),
              λ region size. omega (arith, copies-append region size xs (entry ∷ [])),
            )
      | inr f ↦
          rw (f, put)
            (
              let room : suc (length xs) < cache_cap = ground arith in
                  omega (arith, length-append xs (entry ∷ [])),
              λ region size. omega (arith, copies-append region size xs (entry ∷ [])),
            )
    ]
