-- ===== src/BuddyPool/Alloc/Existing.antt =====
-- The arenas in use, asked in their order: NULL, or a block that lies apart from all others.
use v8malloc.Prelude.{
  ℕ, ◌≤◌, ◌<◌, ◌≡◌, ◌≢◌, ◌⊎◌, refl, inl, inr, true, false, List, [], ◌∷◌, arith, ◌==◌, Bool-cases,
  ==→eq, eq→==, ne→==, subst,
}
use v8malloc.Buddy.{Buddy, max_block, is_empty, size_to_level}
use v8malloc.Buddy
use v8malloc.Buddy.Geometry.{addr-pos, shr}
use v8malloc.Buddy.Inv.{IsArena, nothing}
use v8malloc.Buddy.Base.{alloc-base}
use v8malloc.Buddy.Alloc.Outcome.{served_or_refused}
use v8malloc.Buddy.Reach.{Block, IsOwned, AreApart as BlocksApart, owned_apart, served-IsArena}
use v8malloc.BuddyPool.{Arena, try_existing_arenas}
use v8malloc.BuddyPool.Inv.{
  IsSlot, IsPool, IsKept, IsServed, across_blocks, IsKept-refl, cons-IsKept, cons-IsServed,
  head-IsKept,
}

abbrev pub block : ℕ → ℕ → Block
block address size = record { address = address; size = size }

-- The two ways in which a call ends.
abbrev pub Outcome :
    {Heap : Type 0} → (Heap → ℕ → Type 0) → Heap → Heap → List Arena → List Arena × ℕ → ℕ → Type 0
Outcome IsOut heap heap' l r size =
    ((r.1 ≡ 0) × IsKept IsOut heap heap' l r.0)
    ⊎ ((r.1 ≢ 0) × IsServed IsOut heap heap' l r.0 (block r.1 size))

-- One arena: refused and unchanged, or served.
abbrev Answer : Buddy → ℕ → Type 0
Answer b size =
    (Buddy.alloc b size ≡ (b, 0))
    ⊎ (((Buddy.alloc b size).1 ≢ 0)
        × IsArena (Buddy.alloc b size).0 nothing
        × IsOwned (Buddy.alloc b size).0 (block (Buddy.alloc b size).1 size)
        × ((y : Block)
            → IsOwned b y
            → IsOwned (Buddy.alloc b size).0 y × BlocksApart (block (Buddy.alloc b size).1 size) y))

answer_lem :
    (b : Buddy) (size : ℕ) → IsArena b nothing → 0 < size → size ≤ max_block → Answer b size
answer_lem b size a pos le = elim (Bool-cases ((Buddy.alloc b size).1 == 0)) [
  | inl z ↦ elim (served_or_refused b size a pos le) [
    | inl refused ↦ inl refused.0
    | inr o ↦ absurd (
        omega (
          arith,
          ==→eq _ _ z,
          o.start,
          addr-pos b (size_to_level size) (shr o.page (size_to_level size)) a.place,
        ))
  ]
  | inr nz ↦
      (let ne : (Buddy.alloc b size).1 ≢ 0 = λ e. ground (arith, eq→== _ _ e) in
        let (arena, own, others) = served-IsArena b a size pos le ne in
        inr (
          ne,
          arena,
          own,
          λ y o. (
            (others y o).0,
            owned_apart _ arena (block _ size) y own (others y o).0 (others y o).1,
          ),
        ))
]

module _ {Heap : Type 0} (IsOut : Heap → ℕ → Type 0) (size : ℕ) (pos : 0 < size)
    (le : size ≤ max_block) where
  skip_lem :
      (s : Arena) (rest : List Arena)
      → s.in_use ≡ false
      → (s ∷ (try_existing_arenas rest size).0, (try_existing_arenas rest size).1)
        ≡ try_existing_arenas (s ∷ rest) size
  unfolding try_existing_arenas
  skip_lem s rest f = ground arith

  refused_lem :
      (s : Arena) (rest : List Arena)
      → Buddy.alloc s.buddy size ≡ (s.buddy, 0)
      → (s ∷ (try_existing_arenas rest size).0, (try_existing_arenas rest size).1)
        ≡ try_existing_arenas (s ∷ rest) size
  unfolding try_existing_arenas
  refused_lem s rest e = ground arith

  abbrev taken : Arena → Arena
  taken s = record s { buddy = (Buddy.alloc s.buddy size).0; drained = false; idle_ticks = 0 }

  taken_lem :
      (s : Arena) (rest : List Arena)
      → s.in_use ≡ true
      → (Buddy.alloc s.buddy size).1 ≢ 0
      → (taken s ∷ rest, (Buddy.alloc s.buddy size).1) ≡ try_existing_arenas (s ∷ rest) size
  unfolding try_existing_arenas
  taken_lem s rest u ne = let nz = ne→== _ _ ne in ground arith

  pub cons_Outcome :
      (heap heap' : Heap) (s : Arena) (l : List Arena) (r : List Arena × ℕ)
      → IsPool IsOut heap (s ∷ l)
      → Outcome IsOut heap heap' l r size
      → Outcome IsOut heap heap' (s ∷ l) (s ∷ r.0, r.1) size
  cons_Outcome heap heap' s l r p (inl (z, k)) = inl (z, cons-IsKept IsOut heap heap' s l r.0 p k)
  cons_Outcome heap heap' s l r p (inr (nz, v)) =
      inr (nz, cons-IsServed IsOut heap heap' s l r.0 (block r.1 size) p v)

  pub rest-IsPool :
      (heap : Heap) (s : Arena) (l : List Arena) → IsPool IsOut heap (s ∷ l) → IsPool IsOut heap l
  rest-IsPool heap s l p = record { slots = p.slots.1; pairs = p.pairs.1 }

  head-IsServed :
      (heap : Heap) (s : Arena) (rest : List Arena)
      → IsPool IsOut heap (s ∷ rest)
      → s.in_use ≡ true
      → (Buddy.alloc s.buddy size).1 ≢ 0
      → IsArena (Buddy.alloc s.buddy size).0 nothing
      → IsOwned (Buddy.alloc s.buddy size).0 (block (Buddy.alloc s.buddy size).1 size)
      → ((y : Block)
          → IsOwned s.buddy y
          → IsOwned (Buddy.alloc s.buddy size).0 y
            × BlocksApart (block (Buddy.alloc s.buddy size).1 size) y)
      → IsServed IsOut heap heap
          (s ∷ rest)
          (taken s ∷ rest)
          (block (Buddy.alloc s.buddy size).1 size)
  head-IsServed heap s rest p u ne arena own others =
      let base = alloc-base s.buddy size in
      let slot : IsSlot IsOut heap (taken s) = record {
        arena = λ w. arena;
        out = λ w. rw base (p.slots.0.out u);
        empty = λ e. cc;
        used = λ w. refl;
      } in
      let kept = head-IsKept IsOut heap s (taken s) rest p slot base u u (λ y o. (others y o).0) in
      record {
        kept = kept;
        own = inl (u, own);
        apart = λ y o. elim o [
          | inl here ↦ (others y here.1).1
          | inr there ↦
              elim (across_blocks (taken s) rest y (block _ size) u kept.pool.pairs.0 own there) [
                | inl a ↦ inr a
                | inr b ↦ inl b
              ]
        ];
      }

  pub existing_lem :
      (heap : Heap) (l : List Arena)
      → IsPool IsOut heap l
      → Outcome IsOut heap heap l (try_existing_arenas l size) size
  unfolding try_existing_arenas
  existing_lem heap [] p = inl (refl, IsKept-refl IsOut heap [] p)
  existing_lem heap (s ∷ rest) p =
      let later =
        cons_Outcome heap heap s rest (try_existing_arenas rest size) p
          (existing_lem heap rest (rest-IsPool heap s rest p)) in
      elim (Bool-cases s.in_use) [
        | inr f ↦ subst (λ r. Outcome IsOut heap heap (s ∷ rest) r size) (skip_lem s rest f) later
        | inl u ↦ elim (answer_lem s.buddy size (p.slots.0.arena u) pos le) [
          | inl e ↦
              subst (λ r. Outcome IsOut heap heap (s ∷ rest) r size) (refused_lem s rest e) later
          | inr (ne, arena, own, others) ↦
              subst (λ r. Outcome IsOut heap heap (s ∷ rest) r size) (taken_lem s rest u ne)
                (inr (ne, head-IsServed heap s rest p u ne arena own others))
        ]
      ]
