-- ===== src/Buddy/Coalesce/Sweep.antt =====
-- The whole sweep: afterwards no two sibling blocks are both free.
use v8malloc.Prelude.{
  ℕ, zero, suc, ◌+◌, ◌≤◌, ◌<◌, ◌≡◌, refl, sym, ◌∙◌, inl, inr, List, [], ◌∷◌, arith, ◌==◌,
  Bool-cases, true, false, not, ◌&&◌, leb, ==→eq, subst, length,
}
use v8malloc.Buddy.{
  Buddy, levels, addr_to_index, size_to_level, free_no_coalesce, clear_alloc, list_push,
}
use v8malloc.Words.{test_bit}
use v8malloc.Buddy.Geometry.{pages, shr, addr, addr-pos, addr_to_index_lem}
use v8malloc.Buddy.Free.{clear_alloc-IsArena, list_push-IsArena, test_bit-clear_alloc}
use v8malloc.Buddy.Inv.{IsArena, nothing}
use v8malloc.Buddy.Coalesce.{is_mergeable, coalesce_level, coalesce_from, coalesce_all}
use v8malloc.Buddy.Coalesce.Level.{AllApart, IsKept, IsSwept, IsKept-refl, coalesce_level_lem}

-- The test of a block depends on the bits of its level alone.
AllApart-same :
    (b c : Buddy) (m : ℕ) (nodes : List ℕ)
    → c.alloc_bitmap ≡ b.alloc_bitmap
    → c.arena_base ≡ b.arena_base
    → c.split_bitmap m ≡ b.split_bitmap m
    → AllApart b m nodes
    → AllApart c m nodes
unfolding is_mergeable addr_to_index
AllApart-same b c m [] allocs base splits all = tt
AllApart-same b c m (x ∷ rest) allocs base splits all =
    (rw (allocs, base, splits) all.0, AllApart-same b c m rest allocs base splits all.1)

-- What the levels from `level` on leave.
pub record IsCoalesced (level : ℕ) (b c : Buddy) : Type 0 where
  pub kept : IsKept level b c
  pub apart : (m : ℕ) → level ≤ m → m < 6 → AllApart c m (c.free_lists m)

next_level :
    (level : ℕ) (b c d : Buddy)
    → IsSwept level b c
    → IsCoalesced (suc level) c d
    → IsCoalesced level b d
next_level level b c d s t = record {
  kept = record {
    arena = t.kept.arena;
    allocs = t.kept.allocs ∙ s.kept.allocs;
    base = t.kept.base ∙ s.kept.base;
    below = record {
      lists = λ m h. t.kept.below.lists m (omega arith) ∙ s.kept.below.lists m h;
      splits = λ m h. t.kept.below.splits m (omega arith) ∙ s.kept.below.splits m h;
    };
  };
  apart = λ m lo hi. elim (Bool-cases (m == level)) [
    | inr f ↦ t.apart m (ground arith) hi
    | inl e ↦
        subst (λ n. AllApart d n (d.free_lists n)) (sym (==→eq m level e))
          (subst (AllApart d level) (sym (t.kept.below.lists level (omega arith))) (
            AllApart-same c d level (c.free_lists level) t.kept.allocs t.kept.base
              (t.kept.below.splits level (omega arith)) s.apart))
  ];
}

coalesce_from_lem :
    (k : ℕ) (b : Buddy) (level : ℕ)
    → level + k ≡ 6
    → IsArena b nothing
    → IsCoalesced level b ((coalesce_from k b level).0)
unfolding coalesce_from
coalesce_from_lem zero b level e a = record {
  kept = IsKept-refl level b a;
  apart = λ m lo hi. absurd (omega arith);
}
coalesce_from_lem (suc k) b level e a =
    let list = b.free_lists level in
    let here =
      coalesce_level_lem (length list) b level [] list (omega arith) a refl tt (omega arith) in
    next_level level b _ _ here (
      coalesce_from_lem k ((coalesce_level (length list) b level list).0) (suc level) (omega arith)
        here.kept.arena)

-- `v8m_buddy_coalesce_all` on an arena in its invariant keeps the invariant, the place and the
-- allocations, and leaves no free block below the top level whose sibling is free as a whole.
pub coalesce_all_lem : (b : Buddy) → IsArena b nothing → IsCoalesced 0 b ((coalesce_all b).0)
unfolding coalesce_all
coalesce_all_lem b a = coalesce_from_lem 6 b 0 (omega arith) a

-- `v8m_buddy_free_no_coalesce` of an allocated block, with a size of its level, keeps the arena's
-- invariant, and takes away that allocation and no other.
pub free_no_coalesce_lem :
    (b : Buddy) (size p : ℕ)
    → IsArena b nothing
    → size_to_level size < levels
    → p < pages
    → test_bit (b.alloc_bitmap (size_to_level size)) (shr p (size_to_level size)) ≡ true
    → let level = size_to_level size in
      let b' = free_no_coalesce b (addr b.arena_base level (shr p level)) size in
      IsArena b' nothing
      × ((l j : ℕ)
          → test_bit (b'.alloc_bitmap l) j
            ≡ (test_bit (b.alloc_bitmap l) j && not (l == level && j == shr p level)))
      × (b'.arena_base ≡ b.arena_base)
unfolding free_no_coalesce list_push
free_no_coalesce_lem b size p a hl hp bit_set =
    let level = size_to_level size in
    let i = shr p level in
    let index = addr_to_index_lem b a.place level p hl hp in
    let not_null : (addr b.arena_base level i == 0) ≡ false =
      ground (arith, addr-pos b level i a.place) in
    let in_range : leb levels level ≡ false = ground arith in
    let carried = clear_alloc-IsArena b level p bit_set a in
    let pushed : IsArena (list_push (clear_alloc b level i) level (addr b.arena_base level i))
        nothing =
      unfold clear_alloc in list_push-IsArena (clear_alloc b level i) level p hl hp carried in
    rw (not_null, in_range, index)
      (pushed, λ l j. test_bit-clear_alloc b level i l j, unfold clear_alloc in refl)
