-- ===== src/LargeCache.antt =====
-- src/v8m_large.c, the recycle cache: up to eight freed regions that stay mapped, each with its size.
pub mod Laws
use v8malloc.Prelude.{
  ℕ, zero, suc, ◌+◌, ◌-◌, Bool, true, false, Option, none, some, List, [], ◌∷◌, ◌++◌, ltb, ◌==◌,
  if◌then◌else◌, length, get_or, set,
}

-- V8M_LARGE_CACHE_CAP
abbrev pub cache_cap : ℕ
cache_cap = 8

-- The region, and its `mmap_size`.
pub record Entry : Type 0 where
  pub region : ℕ
  pub mmap_size : ℕ

abbrev pub no_entry : Entry
no_entry = record { region = 0; mmap_size = 0 }

-- The index of the first entry of a size.
unfoldable pub find_size : List Entry → ℕ → Option ℕ
find_size [] size = none
find_size (e ∷ rest) size =
    let later = find_size rest size in
    if e.mmap_size == size then some 0 else elim later [ none ↦ none | some i ↦ some (suc i) ]

-- The entries without the last one.
abbrev pub drop_last : List Entry → List Entry
drop_last [] = []
drop_last (e ∷ []) = []
drop_last (e ∷ f ∷ rest) = e ∷ drop_last (f ∷ rest)

-- `large_cache_take`: the last entry moves to the place of the one taken.
unfoldable pub take : List Entry → ℕ → List Entry × ℕ
take cache size =
    let shorter = drop_last cache in
    let last = get_or cache (length cache - 1) no_entry in
    elim (find_size cache size) [
      | none ↦ (cache, 0)
      | some i ↦ (
        if ltb i (length shorter) then set shorter i last else shorter,
        (get_or cache i no_entry).region,
      )
    ]

-- `large_cache_put`: the entry evicted, if any.
unfoldable pub put : List Entry → ℕ → ℕ → List Entry × Option Entry
put cache region size =
    let entry : Entry = record { region = region; mmap_size = size } in
    let pushed = cache ++ (entry ∷ []) in
    if length cache == cache_cap
    then elim cache [ [] ↦ (pushed, none) | (oldest ∷ rest) ↦ (rest ++ (entry ∷ []), some oldest) ]
    else (pushed, none)
