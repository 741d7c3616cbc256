-- ===== src/Buddy/Alloc/Outcome.antt =====
-- The outcome of `v8m_buddy_alloc`.
use v8malloc.Prelude.{
  ℕ, ◌-◌, ◌≤◌, ◌<◌, ◌≡◌, refl, ap, ◌∙◌, ◌⊎◌, inl, inr, true, false, ◌||◌, ◌&&◌, List, [], ◌∷◌,
  arith, ◌==◌, Bool-cases, List-cases, leb, subst,
}
use v8malloc.Words.{test_bit}
use v8malloc.Buddy.{
  Buddy, levels, max_block, update, addr_to_index, mark_alloc, split_down, find_level, alloc,
  size_to_level, level_to_size,
}
use v8malloc.Buddy.Geometry.{pages, shr, addr, addr_to_index_lem, size_to_level_fits}
use v8malloc.Buddy.Count.{test_bit-set_bit}
use v8malloc.Buddy.Tiling.{at, same_level, held-le_one}
use v8malloc.Buddy.Inv.{held, nothing, AllBlocks, IsArena}
use v8malloc.Buddy.Alloc.{
  popped, pop-IsArena, SplitTo, split_down_lem, find_level_lem, mark_alloc-IsArena,
}

-- No free block is as large as the request.
abbrev pub Exhausted : Buddy → ℕ → Type 0
Exhausted b size = (l : ℕ) → size_to_level size ≤ l → l < levels → b.free_lists l ≡ []

-- `node` is a block of the request's level that holds the request; none of its pages was allocated,
-- the block is now, no other allocation has changed, and the arena keeps its invariant.
pub record Outcome (b : Buddy) (size : ℕ) (b' : Buddy) (node : ℕ) : Type 0 where
  pub page : ℕ
  pub inside : page < pages
  pub start : node ≡ addr b.arena_base (size_to_level size) (shr page (size_to_level size))
  pub fits : size ≤ level_to_size (size_to_level size)
  pub was_free :
      (l q : ℕ)
      → l < levels
      → q < pages
      → shr q (size_to_level size) ≡ shr page (size_to_level size)
      → test_bit (b.alloc_bitmap l) (shr q l) ≡ false
  pub marked :
      (l j : ℕ)
      → test_bit (b'.alloc_bitmap l) j ≡ (
          test_bit (b.alloc_bitmap l) j
          || (l == size_to_level size && j == shr page (size_to_level size)))
  pub arena : IsArena b' nothing

pub test_bit-mark_alloc :
    (b : Buddy) (k i l j : ℕ)
    → test_bit ((mark_alloc b k i).alloc_bitmap l) j
      ≡ (test_bit (b.alloc_bitmap l) j || (l == k && j == i))
unfolding mark_alloc update
test_bit-mark_alloc b k i l j = ground (arith, test_bit-set_bit (b.alloc_bitmap l) i j)

-- The pages of a carried block belong to no allocated block.
carried_apart :
    (b : Buddy) (t p l q : ℕ)
    → t < levels
    → p < pages
    → IsArena b (at t (shr p t))
    → l < levels
    → q < pages
    → shr q t ≡ shr p t
    → test_bit (b.alloc_bitmap l) (shr q l) ≡ false
carried_apart b t p l q ht hp a hl hq e =
    elim (Bool-cases (test_bit (b.alloc_bitmap l) (shr q l))) [
      | inr f ↦ f
      | inl bit ↦
          let own : 0 < held b (at t (shr p t)) t (shr q t) = ground arith in
          let other : 0 < held b (at t (shr p t)) l (shr q l) = ground arith in
          let same = same_level a.tiled q l t hq hl ht other own in
          let twice = held-le_one a.tiled q t hq ht in
          let here : test_bit (b.alloc_bitmap t) (shr q t) ≡ true =
            subst (λ m. test_bit (b.alloc_bitmap m) (shr q m) ≡ true) same bit in
          absurd (ground arith)
    ]

module _ (b : Buddy) (size : ℕ) (a : IsArena b nothing) (h : 0 < size) (k : size ≤ max_block) where
  abbrev level : ℕ
  level = find_level (levels - size_to_level size) b (size_to_level size)

  module _ (node : ℕ) (rest : List ℕ) (above : size_to_level size ≤ level) (below : level < levels)
      (e : b.free_lists level ≡ node ∷ rest) where
    abbrev taken : Buddy
    taken = split_down (level - size_to_level size) (popped b level rest) node level

    alloc-taken : alloc b size ≡ (
      mark_alloc taken (size_to_level size) (addr_to_index taken node (size_to_level size)),
      node,
    )
    unfolding alloc
    alloc-taken =
        let positive : (size == 0) ≡ false = ground arith in
        let in_range : leb levels (size_to_level size) ≡ false = ground arith in
        let in_range' : leb levels level ≡ false = ground arith in
        rw (positive, in_range, in_range', e) refl

    split :
        (p : ℕ)
        → p < pages
        → node ≡ addr b.arena_base level (shr p level)
        → SplitTo (size_to_level size) node (popped b level rest) taken
    split p inside start =
        split_down_lem (level - size_to_level size) level (size_to_level size) p node
          (popped b level rest) (omega arith) below inside start
          (pop-IsArena b level p rest below inside (rw start at e) a)

    served : Outcome b size (alloc b size).0 (alloc b size).1
    served =
        let t = size_to_level size in
        let first = (subst (λ xs. AllBlocks b.arena_base level xs) e (a.blocks level below)).0 in
        let r = split first.0 first.1 first.2 in
        let ht : t < levels = omega arith in
        let index : addr_to_index taken node t ≡ shr r.page t =
          ap (λ x. addr_to_index taken x t) r.start
          ∙ addr_to_index_lem taken r.arena.place t r.page ht r.inside in
        rw (alloc-taken, index)
          (record {
            page = r.page;
            inside = r.inside;
            start = r.start ∙ ap (λ base. addr base t (shr r.page t)) r.same_base;
            fits = (size_to_level_fits size k).1;
            was_free = λ l q hl hq same.
                subst (λ bits. test_bit (bits l) (shr q l) ≡ false) r.same_allocs
                  (carried_apart taken t r.page l q ht r.inside r.arena hl hq same);
            marked = marked_bits r.page r.same_allocs;
            arena = mark_alloc-IsArena taken t r.page ht r.inside r.arena;
          })
      where
        marked_bits :
            (page : ℕ)
            → taken.alloc_bitmap ≡ b.alloc_bitmap
            → (l j : ℕ)
            → test_bit
                ((mark_alloc taken
                    (size_to_level size)
                    (shr page (size_to_level size))).alloc_bitmap
                  l)
                j
              ≡ (test_bit (b.alloc_bitmap l) j
                  || (l == size_to_level size && j == shr page (size_to_level size)))
        marked_bits page same l j =
            test_bit-mark_alloc taken (size_to_level size) (shr page (size_to_level size)) l j
            ∙ ap
                (λ bits.
                  test_bit (bits l) j
                  || (l == size_to_level size && j == shr page (size_to_level size)))
                same

  -- `v8m_buddy_alloc` of a size up to 256 KiB fails, and then changes nothing, exactly where no free
  -- block is large enough; otherwise it has the outcome above.
  pub served_or_refused :
      ((alloc b size ≡ (b, 0)) × Exhausted b size)
      ⊎ Outcome b size (alloc b size).0 (alloc b size).1
  unfolding alloc
  served_or_refused =
      let t = size_to_level size in
      let ht = (size_to_level_fits size k).0 in
      let search = find_level_lem (levels - t) b t in
      elim (Bool-cases (leb levels level)) [
        | inl out ↦
            let positive : (size == 0) ≡ false = ground arith in
            let in_range : leb levels t ≡ false = ground arith in
            inl (rw (positive, in_range, out) refl, λ l lo hi. search.3 l lo (ground arith))
        | inr within ↦ elim (List-cases (b.free_lists level)) [
          | inl e ↦ absurd (search.2 (ground arith) e)
          | inr (node, rest, e) ↦ inr (served node rest search.0 (ground arith) e)
        ]
      ]
