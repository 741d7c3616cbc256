-- ===== src/Buddy/Base.antt =====
-- No operation moves the arena.
use v8malloc.Prelude.{
  ℕ, zero, suc, ◌-◌, ◌/◌, ◌≡◌, refl, inl, inr, ◌==◌, Bool-cases, List-cases, leb,
}
use v8malloc.Words.{test_bit}
use v8malloc.Buddy.{
  Buddy, levels, alloc, free, flip, split_down, find_level, coalesce_upward, size_to_level,
  list_push, list_remove, mark_split, mark_alloc, clear_alloc, clear_split,
}

split_down-base :
    (n : ℕ) (b : Buddy) (node level : ℕ) → (split_down n b node level).arena_base ≡ b.arena_base
unfolding split_down list_push mark_split
split_down-base zero b node level = refl
split_down-base (suc n) b node level = split_down-base n _ node (level - 1)

pub coalesce_upward-base :
    (k : ℕ) (b : Buddy) (current level idx : ℕ)
    → (coalesce_upward k b current level idx).0.arena_base ≡ b.arena_base
unfolding coalesce_upward list_push list_remove clear_split
coalesce_upward-base zero b current level idx = refl
coalesce_upward-base (suc k) b current level idx =
    elim (Bool-cases (test_bit (b.alloc_bitmap level) (flip idx))) [
      | inl t ↦ rw (t, coalesce_upward) refl
      | inr f ↦ elim (Bool-cases (test_bit (b.split_bitmap level) (flip idx))) [
        | inl t ↦ rw (f, t, coalesce_upward) refl
        | inr g ↦ rw (f, g, coalesce_upward) (coalesce_upward-base k _ _ (suc level) (idx / 2))
      ]
    ]

pub alloc-base : (b : Buddy) (size : ℕ) → (alloc b size).0.arena_base ≡ b.arena_base
unfolding alloc mark_alloc
alloc-base b size =
    let level = find_level (levels - size_to_level size) b (size_to_level size) in
    elim (Bool-cases (size == 0)) [
      | inl t ↦ rw (t, alloc) refl
      | inr f ↦ elim (Bool-cases (leb levels (size_to_level size))) [
        | inl t ↦ rw (f, t, alloc) refl
        | inr g ↦ elim (Bool-cases (leb levels level)) [
          | inl t ↦ rw (f, g, t, alloc) refl
          | inr h ↦ elim (List-cases (b.free_lists level)) [
            | inl e ↦ rw (f, g, h, e, alloc) refl
            | inr (node, rest, e) ↦
                rw (f, g, h, e, alloc) (split_down-base (level - size_to_level size) _ node level)
          ]
        ]
      ]
    ]

pub free-base : (b : Buddy) (ptr size : ℕ) → (free b ptr size).arena_base ≡ b.arena_base
unfolding free clear_alloc
free-base b ptr size = elim (Bool-cases (ptr == 0)) [
  | inl t ↦ rw (t, free) refl
  | inr f ↦ elim (Bool-cases (leb levels (size_to_level size))) [
    | inl t ↦ rw (f, t, free) refl
    | inr g ↦
        rw (f, g, free)
          (coalesce_upward-base (levels - 1 - size_to_level size) _ ptr (size_to_level size) _)
  ]
]
