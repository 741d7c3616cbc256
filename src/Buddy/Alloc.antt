-- ===== src/Buddy/Alloc.antt =====
-- `v8m_buddy_alloc`: popping a block, splitting it down and marking it keep the arena's invariant.
pub mod Outcome
use v8malloc.Prelude.{List-cases, ==→eq}
use v8malloc.Prelude.{
  ℕ, zero, suc, ◌+◌, ◌-◌, ◌*◌, ◌/◌, ◌%◌, ◌≤◌, ◌<◌, ◌≡◌, ◌≢◌, refl, sym, ap, ◌∙◌, inl, inr, Bool,
  true, false, ◌||◌, ◌&&◌, List, [], ◌∷◌, arith, ◌==◌, if◌then◌else◌, Bool-cases, leb, ltb, subst,
}
use v8malloc.Words.{test_bit, set_bit}
use v8malloc.Buddy.{
  Buddy, levels, max_block, update, addr_to_index, index_to_node, list_push, mark_alloc, mark_split,
  split_down, find_level, alloc, size_to_level, level_to_size,
}
use v8malloc.Buddy.Geometry.{
  pages, shr, addr, addr-eq, addr-left, addr-pos, IsBased, index_to_node_lem, addr_to_index_lem,
  left_page, left_page_lem, right_page, right_page_lem,
}
use v8malloc.Buddy.Count.{count, test_bit-set_bit}
use v8malloc.Buddy.Tiling.{IsTiling, at, halves, held-le_one}
use v8malloc.Buddy.Tiling.Split.{split-IsTiling}
use v8malloc.Buddy.Inv.{
  bit, held, split_bit, nothing, AllBlocks, IsArena, IsTiling-eq, count-cons_addr, AllBlocks-update,
}

abbrev pub popped : Buddy → ℕ → List ℕ → Buddy
popped b l rest = record b { free_lists = update b.free_lists l rest }

-- A block popped from its free list is carried.
pub pop-IsArena :
    (b : Buddy) (l p : ℕ) (rest : List ℕ)
    → l < levels
    → p < pages
    → b.free_lists l ≡ addr b.arena_base l (shr p l) ∷ rest
    → IsArena b nothing
    → IsArena (popped b l rest) (at l (shr p l))
unfolding update
pop-IsArena b l p rest h k e a = record {
  place = record { based = a.place.based; room = a.place.room; size = a.place.size };
  tiled =
      IsTiling-eq (held b nothing) _ (split_bit b) _ a.tiled
        (λ m j hm. ground (arith, count-cons_addr b.arena_base m (shr p l) j rest)) (λ m j. refl);
  blocks = λ m hm.
      AllBlocks-update b.arena_base b.free_lists l rest
        (subst (λ xs. AllBlocks b.arena_base l xs) e (a.blocks l h)).1 a.blocks m hm;
}

-- One round of the loop that splits.
abbrev split_once : Buddy → ℕ → ℕ → Buddy
split_once b node l =
    let parent_idx = addr_to_index b node (suc l) in
    let marked = mark_split b (suc l) parent_idx in
    list_push marked l (index_to_node marked (parent_idx * 2 + 1) l)

module _ (b : Buddy) (l p : ℕ) (h : l < 6) (k : p < pages)
    (a : IsArena b (at (suc l) (shr p (suc l)))) where
  -- The round with its index and its address computed.
  split_once_lem :
      split_once b (addr b.arena_base (suc l) (shr p (suc l))) l
      ≡ list_push
          (mark_split b (suc l) (shr p (suc l)))
          l
          (addr b.arena_base l (shr p (suc l) * 2 + 1))
  unfolding mark_split
  split_once_lem =
      let i = shr p (suc l) in
      let marked = mark_split b (suc l) i in
      let right = right_page_lem l p h k in
      let place : IsBased marked = record {
        based = a.place.based;
        room = a.place.room;
        size = a.place.size;
      } in
      let node =
        subst (λ j. index_to_node marked j l ≡ addr b.arena_base l j) right.1
          (index_to_node_lem marked place l (right_page l p) (omega arith) right.0) in
      rw (addr_to_index_lem b a.place (suc l) p (omega arith) k) (ap (list_push marked l) node)

  split_once-IsArena :
      IsArena
        (list_push
          (mark_split b (suc l) (shr p (suc l)))
          l
          (addr b.arena_base l (shr p (suc l) * 2 + 1)))
        (at l (shr p (suc l) * 2))
  unfolding list_push mark_split update
  split_once-IsArena = record {
    place = record { based = a.place.based; room = a.place.room; size = a.place.size };
    tiled =
        split-IsTiling (held b (at (suc l) (shr p (suc l)))) _ (split_bit b) _ a.tiled l p h k
          (ground arith)
          (λ m j hm.
            ground
              (arith, count-cons_addr b.arena_base m (shr p (suc l) * 2 + 1) j (b.free_lists m)))
          (λ m j. ground (arith, test_bit-set_bit (b.split_bitmap m) (shr p (suc l)) j));
    blocks =
        AllBlocks-update b.arena_base b.free_lists l _
          ((
            (
              right_page l p,
              (right_page_lem l p h k).0,
              ap (addr b.arena_base l) (sym (right_page_lem l p h k).1),
            ),
            a.blocks l (omega arith),
          ))
          a.blocks;
  }

-- What splitting `node` down to the level `target` leaves: `node` is now the left-most block of that
-- level, and no allocation has changed.
pub record SplitTo (target node : ℕ) (b b' : Buddy) : Type 0 where
  pub page : ℕ
  pub inside : page < pages
  pub arena : IsArena b' (at target (shr page target))
  pub start : node ≡ addr b'.arena_base target (shr page target)
  pub same_allocs : b'.alloc_bitmap ≡ b.alloc_bitmap
  pub same_base : b'.arena_base ≡ b.arena_base

SplitTo-after :
    (b b' c : Buddy) {target node : ℕ}
    → b'.alloc_bitmap ≡ b.alloc_bitmap
    → b'.arena_base ≡ b.arena_base
    → SplitTo target node b' c
    → SplitTo target node b c
SplitTo-after b b' c same_allocs same_base r = record {
  page = r.page;
  inside = r.inside;
  arena = r.arena;
  start = r.start;
  same_allocs = r.same_allocs ∙ same_allocs;
  same_base = r.same_base ∙ same_base;
}

pub split_down_lem :
    (n level target p node : ℕ) (b : Buddy)
    → level ≡ target + n
    → level < levels
    → p < pages
    → node ≡ addr b.arena_base level (shr p level)
    → IsArena b (at level (shr p level))
    → SplitTo target node b (split_down n b node level)
unfolding split_down list_push mark_split
split_down_lem zero level target p node b e h k start a =
    let same : level ≡ target = omega arith in
    record {
      page = p;
      inside = k;
      arena = subst (λ l. IsArena b (at l (shr p l))) same a;
      start = start ∙ ap (λ l. addr b.arena_base l (shr p l)) same;
      same_allocs = refl;
      same_base = refl;
    }
split_down_lem (suc n) zero target p node b e h k start a = absurd (omega arith)
split_down_lem (suc n) (suc l) target p node b e h k start a =
    let i = shr p (suc l) in
    let next = list_push (mark_split b (suc l) i) l (addr b.arena_base l (i * 2 + 1)) in
    let below : suc l - 1 ≡ l = omega arith in
    let left = left_page_lem l p (omega arith) k in
    let round : split_once b node l ≡ next =
      ap (λ x. split_once b x l) start ∙ split_once_lem b l p (omega arith) k a in
    let arena : IsArena next (at l (shr (left_page l p) l)) =
      subst (λ j. IsArena next (at l j)) (sym left.1)
        (split_once-IsArena b l p (omega arith) k a) in
    let start' : node ≡ addr b.arena_base l (shr (left_page l p) l) =
      start ∙ addr-left b.arena_base l i ∙ ap (addr b.arena_base l) (sym left.1) in
    rw (below, round)
      (SplitTo-after b next _ refl refl (
        split_down_lem n l target (left_page l p) node next (omega arith) (omega arith) left.0
          start' arena))

-- The search stops at the first level from `level` on with a free block, or behind the last level.
pub find_level_lem :
    (k : ℕ) (b : Buddy) (level : ℕ)
    → (level ≤ find_level k b level)
      × (find_level k b level ≤ level + k)
      × (find_level k b level < level + k → b.free_lists (find_level k b level) ≢ [])
      × ((m : ℕ) → level ≤ m → m < find_level k b level → b.free_lists m ≡ [])
unfolding find_level
find_level_lem zero b level =
    (omega arith, omega arith, λ h. absurd (omega arith), λ m h k. absurd (omega arith))
find_level_lem (suc k) b level = elim (List-cases (b.free_lists level)) [
  | inl e ↦
      let ih = find_level_lem k b (suc level) in
      rw (e, find_level)
        (
          omega (arith, ih.0),
          omega (arith, ih.1),
          λ h. ih.2 (omega arith),
          λ m h hm. elim (Bool-cases (m == level)) [
            | inl same ↦ ap b.free_lists (==→eq m level same) ∙ e
            | inr other ↦ ih.3 m (ground arith) hm
          ],
        )
  | inr (x, xs, e) ↦
      rw (e, find_level) (omega arith, omega arith, λ h same. cc, λ m h hm. absurd (omega arith))
]

-- Marking a carried block as allocated.
module _ (b : Buddy) (l p : ℕ) (h : l < levels) (k : p < pages)
    (a : IsArena b (at l (shr p l))) where
  carried-unallocated : test_bit (b.alloc_bitmap l) (shr p l) ≡ false
  carried-unallocated = let le = held-le_one a.tiled p l k h in ground arith

  pub mark_alloc-IsArena : IsArena (mark_alloc b l (shr p l)) nothing
  unfolding mark_alloc update
  mark_alloc-IsArena = record {
    place = record { based = a.place.based; room = a.place.room; size = a.place.size };
    tiled =
        IsTiling-eq (held b (at l (shr p l))) _ (split_bit b) _ a.tiled
          (λ m j hm.
            ground (arith, carried-unallocated, test_bit-set_bit (b.alloc_bitmap m) (shr p l) j))
          (λ m j. refl);
    blocks = a.blocks;
  }
