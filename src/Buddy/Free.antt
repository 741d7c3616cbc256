-- ===== src/Buddy/Free.antt =====
-- `v8m_buddy_free` and its coalescing keep the arena's invariant.
use v8malloc.Prelude.{
  ℕ, zero, suc, ◌+◌, ◌-◌, ◌*◌, ◌/◌, ◌<◌, ◌≡◌, refl, ap, ◌∙◌, inl, inr, true, false, not, ◌&&◌, List,
  [], ◌∷◌, arith, ◌==◌, if◌then◌else◌, Bool-cases, leb, ltb, subst,
}
use v8malloc.Words.{test_bit}
use v8malloc.Buddy.{
  Buddy, levels, update, addr_to_index, index_to_node, list_push, list_remove, erase, clear_alloc,
  clear_split, flip, coalesce_upward, free, size_to_level,
}
use v8malloc.Buddy.Geometry.{
  pages, shr, addr, addr-eq, addr-left, addr-pos, index_to_node_lem, addr_to_index_lem,
  sibling_page, sibling_page_lem, flip-ne,
}
use v8malloc.Buddy.Count.{count, count-erase, test_bit-clear_bit}
use v8malloc.Buddy.Tiling.{at, sibling_held}
use v8malloc.Buddy.Tiling.Merge.{merge-IsTiling}
use v8malloc.Buddy.Inv.{
  held, split_bit, nothing, AllBlocks, IsArena, IsTiling-eq, count-cons_addr, AllBlocks-update,
}

pub AllBlocks-erase :
    (base l a : ℕ) (xs : List ℕ) → AllBlocks base l xs → AllBlocks base l (erase a xs)
unfolding erase
AllBlocks-erase base l a [] h = h
AllBlocks-erase base l a (x ∷ xs) h = elim (Bool-cases (x == a)) [
  | inl e ↦ rw e h.1
  | inr n ↦ rw n (h.0, AllBlocks-erase base l a xs h.1)
]

-- An allocated block whose bit is cleared is carried.
pub clear_alloc-IsArena :
    (b : Buddy) (l p : ℕ)
    → test_bit (b.alloc_bitmap l) (shr p l) ≡ true
    → IsArena b nothing
    → IsArena (clear_alloc b l (shr p l)) (at l (shr p l))
unfolding clear_alloc update
clear_alloc-IsArena b l p bit_set a = record {
  place = record { based = a.place.based; room = a.place.room; size = a.place.size };
  tiled =
      IsTiling-eq (held b nothing) _ (split_bit b) _ a.tiled
        (λ m j hm. ground (arith, test_bit-clear_bit (b.alloc_bitmap m) (shr p l) j)) (λ m j. refl);
  blocks = a.blocks;
}

-- A carried block that is pushed is free.
pub list_push-IsArena :
    (b : Buddy) (l p : ℕ)
    → l < levels
    → p < pages
    → IsArena b (at l (shr p l))
    → IsArena (list_push b l (addr b.arena_base l (shr p l))) nothing
unfolding list_push update
list_push-IsArena b l p h k a = record {
  place = record { based = a.place.based; room = a.place.room; size = a.place.size };
  tiled =
      IsTiling-eq (held b (at l (shr p l))) _ (split_bit b) _ a.tiled
        (λ m j hm. ground (arith, count-cons_addr b.arena_base m (shr p l) j (b.free_lists m)))
        (λ m j. refl);
  blocks = AllBlocks-update b.arena_base b.free_lists l _ ((p, k, refl), a.blocks l h) a.blocks;
}

two_halves :
    (i j : ℕ)
    → (if j / 2 == i / 2 then 1 else 0) ≡ (if j == i then 1 else 0) + (if j == flip i then 1 else 0)
unfolding flip
two_halves i j = ground arith

lower_half :
    (i : ℕ)
    → (ltb (flip i) i ≡ true → flip i ≡ i / 2 * 2) × (ltb (flip i) i ≡ false → i ≡ i / 2 * 2)
unfolding flip
lower_half i = (λ h. ground arith, λ h. ground arith)

-- One round of the loop that merges.
abbrev pub merge_once : Buddy → ℕ → ℕ → Buddy
merge_once b l i = clear_split (list_remove b l (index_to_node b (flip i) l)) (suc l) (i / 2)

module _ (b : Buddy) (l p : ℕ) (h : l < 6) (k : p < pages) (a : IsArena b (at l (shr p l)))
    (no_alloc : test_bit (b.alloc_bitmap l) (flip (shr p l)) ≡ false)
    (no_split : test_bit (b.split_bitmap l) (flip (shr p l)) ≡ false) where
  -- The sibling stands on the free list from which the code unlinks it.
  sibling_listed : 0 < count (addr b.arena_base l (flip (shr p l))) (b.free_lists l)
  sibling_listed =
      let here = sibling_held a.tiled l p h k (ground arith) no_split in
      let ne = flip-ne (shr p l) in ground arith

  sibling_node : index_to_node b (flip (shr p l)) l ≡ addr b.arena_base l (flip (shr p l))
  sibling_node =
      let s = sibling_page_lem l p h k in
      subst (λ j. index_to_node b j l ≡ addr b.arena_base l j) s.1
        (index_to_node_lem b a.place l (sibling_page l p) (omega arith) s.0)

  merge_once-IsArena : IsArena (merge_once b l (shr p l)) (at (suc l) (shr p (suc l)))
  unfolding clear_split list_remove update shr
  merge_once-IsArena = rw sibling_node (record {
    place = record { based = a.place.based; room = a.place.room; size = a.place.size };
    tiled =
        merge-IsTiling (held b (at l (shr p l))) _ (split_bit b) _ a.tiled l p h k (ground arith)
          (sibling_held a.tiled l p h k (ground arith) no_split)
          (λ m j hm. ground (
            arith,
            count-erase (addr b.arena_base l (flip (shr p l))) (addr b.arena_base l j)
                (b.free_lists l) sibling_listed,
            addr-eq b.arena_base l (flip (shr p l)) j,
            two_halves (shr p l) j,
          ))
          (λ m j. ground (arith, test_bit-clear_bit (b.split_bitmap m) (shr p (suc l)) j));
    blocks =
        AllBlocks-update b.arena_base b.free_lists l _
          (AllBlocks-erase b.arena_base l _ (b.free_lists l) (a.blocks l (omega arith))) a.blocks;
  })

  -- The merged block starts at the lower of the two halves.
  merged_start :
      (if ltb (flip (shr p l)) (shr p l)
        then index_to_node b (flip (shr p l)) l
        else addr b.arena_base l (shr p l))
      ≡ addr b.arena_base (suc l) (shr p (suc l))
  unfolding shr
  merged_start =
      let i = shr p l in
      rw (sibling_node, addr-left)
        (elim (Bool-cases (ltb (flip i) i)) [
          | inl lower ↦ rw lower (ap (addr b.arena_base l) ((lower_half i).0 lower))
          | inr upper ↦ rw upper (ap (addr b.arena_base l) ((lower_half i).1 upper))
        ])

-- What coalescing leaves: a tiled arena with the same allocations.
abbrev pub Settled : Buddy → Buddy → Type 0
Settled b c = IsArena c nothing × (c.alloc_bitmap ≡ b.alloc_bitmap)

settle :
    (b : Buddy) (l p current : ℕ)
    → l < levels
    → p < pages
    → current ≡ addr b.arena_base l (shr p l)
    → IsArena b (at l (shr p l))
    → Settled b (list_push b l current)
settle b l p current h k start a =
    rw start (list_push-IsArena b l p h k a, unfold list_push in refl)

pub coalesce_upward_lem :
    (k l p idx current : ℕ) (b : Buddy)
    → l + k ≡ 6
    → p < pages
    → idx ≡ shr p l
    → current ≡ addr b.arena_base l (shr p l)
    → IsArena b (at l (shr p l))
    → Settled b (coalesce_upward k b current l idx).0
unfolding coalesce_upward clear_split list_remove shr
coalesce_upward_lem zero l p idx current b e hp same start a =
    settle b l p current (omega arith) hp start a
coalesce_upward_lem (suc k) l p idx current b e hp same start a =
    rw (same, coalesce_upward)
      (elim (Bool-cases (test_bit (b.alloc_bitmap l) (flip (shr p l)))) [
        | inl taken ↦ rw taken (settle b l p current (omega arith) hp start a)
        | inr no_alloc ↦ elim (Bool-cases (test_bit (b.split_bitmap l) (flip (shr p l)))) [
          | inl split ↦ rw (no_alloc, split) (settle b l p current (omega arith) hp start a)
          | inr no_split ↦
              rw (no_alloc, no_split, start)
                (coalesce_upward_lem k (suc l) p (shr p l / 2) _ (merge_once b l (shr p l))
                  (omega arith) hp refl (merged_start b l p (omega arith) hp a no_alloc no_split)
                  (merge_once-IsArena b l p (omega arith) hp a no_alloc no_split))
        ]
      ])

pub test_bit-clear_alloc :
    (b : Buddy) (k i l j : ℕ)
    → test_bit ((clear_alloc b k i).alloc_bitmap l) j
      ≡ (test_bit (b.alloc_bitmap l) j && not (l == k && j == i))
unfolding clear_alloc update
test_bit-clear_alloc b k i l j = ground (arith, test_bit-clear_bit (b.alloc_bitmap l) i j)

-- `v8m_buddy_free` of an allocated block, with a size of its level, keeps the arena's invariant, and
-- takes away that allocation and no other. While it merges, each sibling that it unlinks stands on the
-- free list.
pub frees_allocated_block :
    (b : Buddy) (size p : ℕ)
    → IsArena b nothing
    → size_to_level size < levels
    → p < pages
    → test_bit (b.alloc_bitmap (size_to_level size)) (shr p (size_to_level size)) ≡ true
    → let level = size_to_level size in
      let b' = free b (addr b.arena_base level (shr p level)) size in
      IsArena b' nothing
      × ((l j : ℕ)
          → test_bit (b'.alloc_bitmap l) j
            ≡ (test_bit (b.alloc_bitmap l) j && not (l == level && j == shr p level)))
unfolding free addr_to_index
frees_allocated_block b size p a hl hp bit_set =
    let level = size_to_level size in
    let i = shr p level in
    let index = addr_to_index_lem b a.place level p hl hp in
    let not_null : (addr b.arena_base level i == 0) ≡ false =
      ground (arith, addr-pos b level i a.place) in
    let in_range : leb levels level ≡ false = ground arith in
    let cleared = clear_alloc b level i in
    let carried = clear_alloc-IsArena b level p bit_set a in
    let index' : addr_to_index cleared (addr b.arena_base level i) level ≡ i =
      unfold clear_alloc in index in
    let done =
      coalesce_upward_lem (levels - 1 - level) level p i (addr b.arena_base level i) cleared
        (omega arith) hp refl (unfold clear_alloc in refl) carried in
    rw (not_null, in_range, index, index')
      (done.0, λ l j. ap (λ bits. test_bit (bits l) j) done.1 ∙ test_bit-clear_alloc b level i l j)
