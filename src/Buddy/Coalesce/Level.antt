-- ===== src/Buddy/Coalesce/Level.antt =====
-- One level of the sweep: each merge keeps the invariant and shortens the list, and in the end no block
-- of the level has a free sibling.
use v8malloc.Prelude.{
  ℕ, zero, suc, ◌-◌, ◌/◌, ◌≤◌, ◌<◌, ◌≡◌, refl, sym, ap, ◌∙◌, inl, inr, Bool, true, false, not, ◌&&◌,
  List, [], ◌∷◌, ◌++◌, arith, if◌then◌else◌, ltb, Bool-cases, subst, eq→==, length, length-append,
}
use mathlib.Core.List.{append_assoc, append-nil}
use v8malloc.Words.{test_bit}
use v8malloc.Buddy.{
  Buddy, levels, update, addr_to_index, list_push, list_remove, erase, flip, coalesce_upward,
  clear_split, index_to_node,
}
use v8malloc.Buddy.Geometry.{pages, shr, addr, addr-eq, addr_to_index_lem}
use v8malloc.Buddy.Count.{count, count-erase}
use v8malloc.Buddy.Tiling.{at}
use v8malloc.Buddy.Inv.{held, split_bit, nothing, AllBlocks, IsArena, IsTiling-eq, AllBlocks-update}
use v8malloc.Buddy.Free.{merge_once, coalesce_upward_lem, AllBlocks-erase}
use v8malloc.Buddy.Base.{coalesce_upward-base}
use v8malloc.Buddy.Coalesce.{is_mergeable, merge, coalesce_level}

-- A block unlinked from its free list is carried.
remove-IsArena :
    (b : Buddy) (l p : ℕ)
    → l < levels
    → p < pages
    → 0 < count (addr b.arena_base l (shr p l)) (b.free_lists l)
    → IsArena b nothing
    → IsArena (list_remove b l (addr b.arena_base l (shr p l))) (at l (shr p l))
unfolding list_remove update
remove-IsArena b l p h k listed a = record {
  place = record { based = a.place.based; room = a.place.room; size = a.place.size };
  tiled =
      IsTiling-eq (held b nothing) _ (split_bit b) _ a.tiled
        (λ m j hm. ground (
          arith,
          count-erase (addr b.arena_base l (shr p l)) (addr b.arena_base l j) (b.free_lists l)
              listed,
          addr-eq b.arena_base l (shr p l) j,
        ))
        (λ m j. refl);
  blocks =
      AllBlocks-update b.arena_base b.free_lists l _
        (AllBlocks-erase b.arena_base l _ (b.free_lists l) (a.blocks l h)) a.blocks;
}

AllBlocks-middle :
    (base l node : ℕ) (before after : List ℕ)
    → AllBlocks base l (before ++ node ∷ after)
    → (p : ℕ) × (p < pages) × (node ≡ addr base l (shr p l))
AllBlocks-middle base l node [] after h = h.0
AllBlocks-middle base l node (x ∷ before) after h = AllBlocks-middle base l node before after h.1

count-middle : (node : ℕ) (before after : List ℕ) → 0 < count node (before ++ node ∷ after)
unfolding count
count-middle node [] after = rw (eq→== node node refl) (omega arith)
count-middle node (x ∷ before) after = omega (arith, count-middle node before after)

length-erase-le : (a : ℕ) (xs : List ℕ) → length (erase a xs) ≤ length xs
unfolding erase
length-erase-le a [] = omega arith
length-erase-le a (x ∷ xs) = ground (arith, length-erase-le a xs)

length-erase-lt : (a : ℕ) (xs : List ℕ) → 0 < count a xs → length (erase a xs) < length xs
unfolding erase count
length-erase-lt a [] h = absurd (omega arith)
length-erase-lt a (x ∷ xs) h = ground (arith, length-erase-lt a xs)

-- Coalescing from a level on touches no list below it, and no split bits up to it.
pub record IsSameBelow (level : ℕ) (b c : Buddy) : Type 0 where
  pub lists : (m : ℕ) → m < level → c.free_lists m ≡ b.free_lists m
  pub splits : (m : ℕ) → m ≤ level → c.split_bitmap m ≡ b.split_bitmap m

pushed_below : (b : Buddy) (level node : ℕ) → IsSameBelow level b (list_push b level node)
unfolding list_push update
pushed_below b level node = record { lists = λ m h. ground arith; splits = λ m h. refl }

merged_below :
    (b c : Buddy) (level sibling i : ℕ)
    → IsSameBelow (suc level) (clear_split (list_remove b level sibling) (suc level) i) c
    → IsSameBelow level b c
unfolding clear_split list_remove update
merged_below b c level sibling i s = record {
  lists = λ m h. s.lists m (omega arith) ∙ ground arith;
  splits = λ m h. s.splits m (omega arith) ∙ ground arith;
}

below_lem :
    (k : ℕ) (b : Buddy) (current level idx : ℕ)
    → IsSameBelow level b ((coalesce_upward k b current level idx).0)
unfolding coalesce_upward
below_lem zero b current level idx = pushed_below b level current
below_lem (suc k) b current level idx =
    elim (Bool-cases (test_bit (b.alloc_bitmap level) (flip idx))) [
      | inl t ↦ rw (t, coalesce_upward) (pushed_below b level current)
      | inr f ↦ elim (Bool-cases (test_bit (b.split_bitmap level) (flip idx))) [
        | inl t ↦ rw (f, t, coalesce_upward) (pushed_below b level current)
        | inr g ↦
            rw (f, g, coalesce_upward)
              (merged_below b _ level _ (idx / 2) (below_lem k _ _ (suc level) (idx / 2)))
      ]
    ]

-- Every block listed has an allocated or split sibling.
abbrev pub AllApart : Buddy → ℕ → List ℕ → Type 0
AllApart b level [] = Unit {0}
AllApart b level (x ∷ rest) = (is_mergeable b level x ≡ false) × AllApart b level rest

-- The blocks before and at a place of a list.
AllApart-snoc :
    (b : Buddy) (level node : ℕ) (before : List ℕ)
    → AllApart b level before
    → is_mergeable b level node ≡ false
    → AllApart b level (before ++ node ∷ [])
AllApart-snoc b level node [] all h = (h, tt)
AllApart-snoc b level node (x ∷ before) all h = (all.0, AllApart-snoc b level node before all.1 h)

-- What the sweep keeps.
pub record IsKept (level : ℕ) (b c : Buddy) : Type 0 where
  pub arena : IsArena c nothing
  pub allocs : c.alloc_bitmap ≡ b.alloc_bitmap
  pub base : c.arena_base ≡ b.arena_base
  pub below : IsSameBelow level b c

and_parts : (a c : Bool) → (not a && not c) ≡ true → (a ≡ false) × (c ≡ false)
and_parts a c h = ground arith

module _ (b : Buddy) (level node p : ℕ) (h : level < 6) (k : p < pages) (a : IsArena b nothing)
    (start : node ≡ addr b.arena_base level (shr p level))
    (listed : 0 < count node (b.free_lists level)) where
  removed_carried : IsArena (list_remove b level node) (at level (shr p level))
  removed_carried =
      subst (λ n. IsArena (list_remove b level n) (at level (shr p level))) (sym start)
        (remove-IsArena b level p (omega arith) k
          (subst (λ n. 0 < count n (b.free_lists level)) start listed) a)

  index_lem : addr_to_index b node level ≡ shr p level
  index_lem =
      ap (λ n. addr_to_index b n level) start ∙ addr_to_index_lem b a.place level p (omega arith) k

  abbrev removed : Buddy
  removed = list_remove b level node

  index_removed : addr_to_index removed node level ≡ shr p level
  unfolding addr_to_index list_remove
  index_removed = unfold addr_to_index in index_lem

  removed_below : (c : Buddy) → IsSameBelow level removed c → IsSameBelow level b c
  unfolding list_remove update
  removed_below c s = record { lists = λ m h. s.lists m h ∙ ground arith; splits = s.splits }

  merge_lem :
      merge b level node ≡ (coalesce_upward (levels - 1 - level) removed node level (shr p level)).0
  unfolding merge
  merge_lem = ap (λ i. (coalesce_upward (levels - 1 - level) removed node level i).0) index_removed

  merge-IsKept : IsKept level b (merge b level node)
  merge-IsKept =
      let n = levels - 1 - level in
      let done =
        coalesce_upward_lem n level p (shr p level) node removed (omega arith) k refl
          (start ∙ unfold list_remove in refl) removed_carried in
      rw merge_lem (record {
        arena = done.0;
        allocs = done.1 ∙ unfold list_remove in refl;
        base = coalesce_upward-base n removed node level (shr p level) ∙ unfold list_remove in refl;
        below = removed_below _ (below_lem n removed node level (shr p level));
      })

  -- Both halves leave the list of the level.
  shorter :
      test_bit (b.alloc_bitmap level) (flip (shr p level)) ≡ false
      → test_bit (b.split_bitmap level) (flip (shr p level)) ≡ false
      → length
          ((coalesce_upward (suc (5 - level)) removed node level (shr p level)).0.free_lists level)
        < length (b.free_lists level)
  unfolding coalesce_upward list_remove clear_split update
  shorter no_alloc no_split =
      let i = shr p level in
      let sibling = index_to_node removed (flip i) level in
      let lower = if ltb (flip i) i then sibling else node in
      let keeps = below_lem (5 - level) (merge_once removed level i) lower (suc level) (i / 2) in
      let halves : (merge_once removed level i).free_lists level
          ≡ erase sibling (erase node (b.free_lists level)) =
        ground arith in
      rw (no_alloc, no_split, keeps.lists level (omega arith), halves)
        (omega (
          arith,
          length-erase-le sibling (erase node (b.free_lists level)),
          length-erase-lt node (b.free_lists level) listed,
        ))

  merge_shorter :
      is_mergeable b level node ≡ true
      → length ((merge b level node).free_lists level) < length (b.free_lists level)
  unfolding is_mergeable
  merge_shorter free =
      let i = shr p level in
      let bits =
        and_parts (test_bit (b.alloc_bitmap level) (flip i))
          (test_bit (b.split_bitmap level) (flip i)) (rw index_lem at free) in
      let up : levels - 1 - level ≡ suc (5 - level) = omega arith in
      rw (merge_lem, up) (shorter bits.0 bits.1)

-- What the walk leaves at the level.
pub record IsSwept (level : ℕ) (b c : Buddy) : Type 0 where
  pub kept : IsKept level b c
  pub apart : AllApart c level (c.free_lists level)

IsKept-trans : (level : ℕ) (b c d : Buddy) → IsKept level b c → IsKept level c d → IsKept level b d
IsKept-trans level b c d s t = record {
  arena = t.arena;
  allocs = t.allocs ∙ s.allocs;
  base = t.base ∙ s.base;
  below = record {
    lists = λ m h. t.below.lists m h ∙ s.below.lists m h;
    splits = λ m h. t.below.splits m h ∙ s.below.splits m h;
  };
}

pub IsKept-refl : (level : ℕ) (b : Buddy) → IsArena b nothing → IsKept level b b
IsKept-refl level b a = record {
  arena = a;
  allocs = refl;
  base = refl;
  below = record { lists = λ m h. refl; splits = λ m h. refl };
}

-- The blocks `before` the place of the walk have been passed over.
pub coalesce_level_lem :
    (fuel : ℕ) (b : Buddy) (level : ℕ) (before nodes : List ℕ)
    → level < 6
    → IsArena b nothing
    → b.free_lists level ≡ before ++ nodes
    → AllApart b level before
    → length (b.free_lists level) ≤ fuel
    → IsSwept level b ((coalesce_level fuel b level nodes).0)
unfolding coalesce_level
coalesce_level_lem fuel b level before [] h a shape passed enough = record {
  kept = IsKept-refl level b a;
  apart = subst (AllApart b level) (sym (shape ∙ append-nil before)) passed;
}
coalesce_level_lem zero b level before (node ∷ next) h a shape passed enough =
    absurd (omega (arith, ap length shape, length-append {0} before (node ∷ next)))
coalesce_level_lem (suc fuel) b level before (node ∷ next) h a shape passed enough =
    let (p, inside, start) =
      AllBlocks-middle b.arena_base level node before next
        (subst (AllBlocks b.arena_base level) shape (a.blocks level (omega arith))) in
    let listed = subst (λ l. 0 < count node l) (sym shape) (count-middle node before next) in
    elim (Bool-cases (is_mergeable b level node)) [
      | inl t ↦
          (let kept = merge-IsKept b level node p h inside a start listed in
            let shorter = merge_shorter b level node p h inside a start listed t in
            let merged = merge b level node in
            let rest =
              coalesce_level_lem fuel merged level [] (merged.free_lists level) h kept.arena refl tt
                (omega arith) in
            rw t
              (record { kept = IsKept-trans level b merged _ kept rest.kept; apart = rest.apart }))
      | inr f ↦ rw f (
          coalesce_level_lem (suc fuel) b level (before ++ node ∷ []) next h a
            (shape ∙ sym (append_assoc before (node ∷ []) next))
            (AllApart-snoc b level node before passed f) enough)
    ]
