-- ===== src/BuddyPool/Inv.antt =====
-- The invariant of the pool, and what a call does to it slot by slot.
use v8malloc.Prelude.{ℕ, ◌+◌, ◌*◌, ◌≤◌, ◌<◌, ◌≡◌, ◌⊎◌, inl, inr, true, false, List, [], ◌∷◌, arith}
use v8malloc.Buddy.{Buddy, max_block, size_to_level, level_to_size, is_empty}
use v8malloc.Buddy.Geometry.{shr, addr, block_in_arena, level_to_size-pos}
use v8malloc.Buddy.Inv.{IsArena, nothing}
use v8malloc.Buddy.Reach.{Block, IsOwned, AreApart as BlocksApart}
use v8malloc.PageSource.{AreApart}
use v8malloc.BuddyPool.{Arena}

module _ {Heap : Type 0} (IsOut : Heap → ℕ → Type 0) where
  -- An arena in use is in the invariant of the buddy allocator, on memory of the page heap; a drained one
  -- has no allocated block.
  pub record IsSlot (heap : Heap) (s : Arena) : Type 0 where
    pub arena : s.in_use ≡ true → IsArena s.buddy nothing
    pub out : s.in_use ≡ true → IsOut heap s.buddy.arena_base
    pub empty : s.drained ≡ true → is_empty s.buddy ≡ true
    pub used : s.in_use ≡ false → s.drained ≡ false

  abbrev pub AllSlots : Heap → List Arena → Type 0
  AllSlots heap [] = Unit {0}
  AllSlots heap (s ∷ rest) = IsSlot heap s × AllSlots heap rest

abbrev pub AreSlotsApart : Arena → Arena → Type 0
AreSlotsApart s t =
    s.in_use ≡ true → t.in_use ≡ true → AreApart max_block s.buddy.arena_base t.buddy.arena_base

abbrev pub IsApartFrom : Arena → List Arena → Type 0
IsApartFrom s [] = Unit {0}
IsApartFrom s (t ∷ rest) = AreSlotsApart s t × IsApartFrom s rest

abbrev pub ArePairsApart : List Arena → Type 0
ArePairsApart [] = Unit {0}
ArePairsApart (s ∷ rest) = IsApartFrom s rest × ArePairsApart rest

-- The block is an allocated one of an arena in use.
abbrev pub Owns : List Arena → Block → Type 0
Owns [] x = ⊥
Owns (s ∷ rest) x = ((s.in_use ≡ true) × IsOwned s.buddy x) ⊎ Owns rest x

pub record IsPool {Heap : Type 0} (IsOut : Heap → ℕ → Type 0) (heap : Heap) (arenas : List Arena)
    : Type 0 where
  pub slots : AllSlots IsOut heap arenas
  pub pairs : ArePairsApart arenas

module _ {Heap : Type 0} (IsOut : Heap → ℕ → Type 0) where
  -- What a call keeps.
  pub record IsKept (heap heap' : Heap) (l l' : List Arena) : Type 0 where
    pub pool : IsPool IsOut heap' l'
    pub front :
        (s : Arena)
        → (s.in_use ≡ true → IsOut heap s.buddy.arena_base)
        → IsApartFrom s l
        → IsApartFrom s l'
    pub outs : (q : ℕ) → IsOut heap q → IsOut heap' q
    pub keeps : (y : Block) → Owns l y → Owns l' y

  -- The new block is owned, and lies apart from every block that was.
  pub record IsServed (heap heap' : Heap) (l l' : List Arena) (x : Block) : Type 0 where
    pub kept : IsKept heap heap' l l'
    pub own : Owns l' x
    pub apart : (y : Block) → Owns l y → BlocksApart x y

within_lem :
    (i s n base : ℕ)
    → (i + 1) * s ≤ max_block
    → n ≤ s
    → 0 < s
    → (base ≤ base + i * s)
      × (base + i * s + n ≤ base + max_block)
      × (base + i * s < base + max_block)
within_lem i s n base h k pos = omega arith

-- A block lies in its arena.
pub owned_within :
    (b : Buddy) (x : Block)
    → IsOwned b x
    → (b.arena_base ≤ x.address)
      × (x.address + x.size ≤ b.arena_base + max_block)
      × (x.address < b.arena_base + max_block)
unfolding addr
owned_within b x o =
    let l = size_to_level x.size in
    rw o.place (
      within_lem (shr o.page l) (level_to_size l) x.size b.arena_base
        (block_in_arena l o.page o.level o.inside) o.fits (level_to_size-pos l))

-- Blocks of two arenas.
pub across :
    (s : Arena) (rest : List Arena) (x : Block)
    → s.in_use ≡ true
    → IsApartFrom s rest
    → Owns rest x
    → (x.address + x.size ≤ s.buddy.arena_base × x.address < s.buddy.arena_base)
      ⊎ (s.buddy.arena_base + max_block ≤ x.address)
across s [] x used apart o = elim o [ ]
across s (t ∷ rest) x used apart (inl (there, o)) =
    let w = owned_within t.buddy x o in
    elim (apart.0 used there) [
      | inl before ↦ inr (omega arith)
      | inr after ↦ inl (omega arith, omega arith)
    ]
across s (t ∷ rest) x used apart (inr o) = across s rest x used apart.1 o

pub across_blocks :
    (s : Arena) (rest : List Arena) (x y : Block)
    → s.in_use ≡ true
    → IsApartFrom s rest
    → IsOwned s.buddy y
    → Owns rest x
    → BlocksApart x y
across_blocks s rest x y used apart own o =
    let w = owned_within s.buddy y own in
    elim (across s rest x used apart o) [
      | inl before ↦ inl (omega arith)
      | inr after ↦ inr (omega arith)
    ]

module _ {Heap : Type 0} (IsOut : Heap → ℕ → Type 0) where
  pub slots_outs :
      (h h' : Heap) (l : List Arena)
      → ((q : ℕ) → IsOut h q → IsOut h' q)
      → AllSlots IsOut h l
      → AllSlots IsOut h' l
  slots_outs h h' [] outs v = tt
  slots_outs h h' (s ∷ l) outs v = (
    record { arena = v.0.arena; out = λ u. outs _ (v.0.out u); empty = v.0.empty; used = v.0.used },
    slots_outs h h' l outs v.1,
  )

  pub IsKept-refl :
      (heap : Heap) (l : List Arena) → IsPool IsOut heap l → IsKept IsOut heap heap l l
  IsKept-refl heap l p = record { pool = p; front = λ s o a. a; outs = λ q o. o; keeps = λ y o. o }

  pub IsKept-trans :
      (h1 h2 h3 : Heap) (l1 l2 l3 : List Arena)
      → IsKept IsOut h1 h2 l1 l2
      → IsKept IsOut h2 h3 l2 l3
      → IsKept IsOut h1 h3 l1 l3
  IsKept-trans h1 h2 h3 l1 l2 l3 a b = record {
    pool = b.pool;
    front = λ s o h. b.front s (λ u. a.outs _ (o u)) (a.front s o h);
    outs = λ q o. b.outs q (a.outs q o);
    keeps = λ y o. b.keeps y (a.keeps y o);
  }

  pub IsServed-after :
      (h1 h2 h3 : Heap) (l1 l2 l3 : List Arena) (x : Block)
      → IsKept IsOut h1 h2 l1 l2
      → IsServed IsOut h2 h3 l2 l3 x
      → IsServed IsOut h1 h3 l1 l3 x
  IsServed-after h1 h2 h3 l1 l2 l3 x a b = record {
    kept = IsKept-trans h1 h2 h3 l1 l2 l3 a b.kept;
    own = b.own;
    apart = λ y o. b.apart y (a.keeps y o);
  }

  -- A slot in front of the slots that a call has changed.
  pub cons-IsKept :
      (heap heap' : Heap) (s : Arena) (l l' : List Arena)
      → IsPool IsOut heap (s ∷ l)
      → IsKept IsOut heap heap' l l'
      → IsKept IsOut heap heap' (s ∷ l) (s ∷ l')
  cons-IsKept heap heap' s l l' p k = record {
    pool = record {
      slots = (
        record {
          arena = p.slots.0.arena;
          out = λ u. k.outs _ (p.slots.0.out u);
          empty = p.slots.0.empty;
          used = p.slots.0.used;
        },
        k.pool.slots,
      );
      pairs = (k.front s p.slots.0.out p.pairs.0, k.pool.pairs);
    };
    front = λ t o a. (a.0, k.front t o a.1);
    outs = k.outs;
    keeps = λ y o. elim o [ inl here ↦ inl here | inr there ↦ inr (k.keeps y there) ];
  }

  pub cons-IsServed :
      (heap heap' : Heap) (s : Arena) (l l' : List Arena) (x : Block)
      → IsPool IsOut heap (s ∷ l)
      → IsServed IsOut heap heap' l l' x
      → IsServed IsOut heap heap' (s ∷ l) (s ∷ l') x
  cons-IsServed heap heap' s l l' x p v = record {
    kept = cons-IsKept heap heap' s l l' p v.kept;
    own = inr v.own;
    apart = λ y o. elim o [
      | inl here ↦
          across_blocks s l' x y here.0 (v.kept.front s p.slots.0.out p.pairs.0) here.1 v.own
      | inr there ↦ v.apart y there
    ];
  }

  -- A slot in use that changes and stays at its place.
  pub head-IsKept :
      (heap : Heap) (s t : Arena) (l : List Arena)
      → IsPool IsOut heap (s ∷ l)
      → IsSlot IsOut heap t
      → t.buddy.arena_base ≡ s.buddy.arena_base
      → s.in_use ≡ true
      → t.in_use ≡ true
      → ((y : Block) → IsOwned s.buddy y → IsOwned t.buddy y)
      → IsKept IsOut heap heap (s ∷ l) (t ∷ l)
  head-IsKept heap s t l p v base used used' owned = record {
    pool = record { slots = (v, p.slots.1); pairs = (moved_apart l p.pairs.0, p.pairs.1) };
    front = λ r o a. (λ u w. rw base (a.0 u used), a.1);
    outs = λ q o. o;
    keeps = λ y o. elim o [ inl here ↦ inl (used', owned y here.1) | inr there ↦ inr there ];
  }
    where
      moved_apart : (m : List Arena) → IsApartFrom s m → IsApartFrom t m
      moved_apart [] a = tt
      moved_apart (r ∷ m) a = (λ u w. rw base (a.0 used w), moved_apart m a.1)
