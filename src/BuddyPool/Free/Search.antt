-- ===== src/BuddyPool/Free/Search.antt =====
-- The search for the arena of a block, and what putting an arena back at its place does.
use v8malloc.Prelude.{
  ℕ, ◌+◌, ◌≡◌, ◌≢◌, refl, sym, inl, inr, true, false, List, [], ◌∷◌, arith, Bool-cases,
}
use v8malloc.Words.{wrap64}
use v8malloc.Buddy.{max_block}
use v8malloc.Buddy.Reach.{Block, IsOwned}
use v8malloc.BuddyPool.{Arena, owns_address, found, find_owning_arena}
use v8malloc.BuddyPool.Inv.{IsSlot, IsApartFrom, Owns, IsPool, owned_within, across, slots_outs}

-- What a free leaves of the pool.
pub record IsFreed {Heap : Type 0} (IsOut : Heap → ℕ → Type 0) (heap heap' : Heap)
    (l l' : List Arena) (x : Block) : Type 0 where
  pub pool : IsPool IsOut heap' l'
  pub front : (s : Arena) → IsApartFrom s l → IsApartFrom s l'
  pub keeps : (y : Block) → x.address ≢ y.address → Owns l y → Owns l' y
  pub only : (y : Block) → Owns l' y → (x.address ≢ y.address) × Owns l y

module _ {Heap : Type 0} (IsOut : Heap → ℕ → Type 0) (heap heap' : Heap)
    (outs : (q : ℕ) → IsOut heap q → IsOut heap' q) (x : Block) where
  -- The arena of the block, and what takes its place.
  pub record IsPlace (s t : Arena) : Type 0 where
    pub slot : IsSlot IsOut heap' t
    pub base : t.buddy.arena_base ≡ s.buddy.arena_base
    pub used : t.in_use ≡ true
    pub keeps : (y : Block) → x.address ≢ y.address → IsOwned s.buddy y → IsOwned t.buddy y
    pub only : (y : Block) → IsOwned t.buddy y → (x.address ≢ y.address) × IsOwned s.buddy y

  -- The blocks of an arena stand at other addresses than those of the arenas behind it.
  other_arena :
      (s : Arena) (l : List Arena) (y z : Block)
      → IsPool IsOut heap (s ∷ l)
      → s.in_use ≡ true
      → IsOwned s.buddy y
      → Owns l z
      → y.address ≢ z.address
  other_arena s l y z p u o there e =
      let w = owned_within s.buddy y o in
      elim (across s l z u p.pairs.0 there) [
        | inl before ↦ omega (arith, w, before, e)
        | inr after ↦ omega (arith, w, after, e)
      ]

  head-IsFreed :
      (s t : Arena) (l : List Arena)
      → IsPool IsOut heap (s ∷ l)
      → s.in_use ≡ true
      → IsOwned s.buddy x
      → IsPlace s t
      → IsFreed IsOut heap heap' (s ∷ l) (t ∷ l) x
  head-IsFreed s t l p used owned v = record {
    pool = record {
      slots = (v.slot, slots_outs IsOut heap heap' l outs p.slots.1);
      pairs = (moved_apart l p.pairs.0, p.pairs.1);
    };
    front = λ r a. (λ u w. rw v.base (a.0 u used), a.1);
    keeps =
        λ y ne o. elim o [ inl here ↦ inl (v.used, v.keeps y ne here.1) | inr there ↦ inr there ];
    only = λ y o. elim o [
      | inl here ↦ ((v.only y here.1).0, inl (used, (v.only y here.1).1))
      | inr there ↦ (other_arena s l x y p used owned there, inr there)
    ];
  }
    where
      moved_apart : (m : List Arena) → IsApartFrom s m → IsApartFrom t m
      moved_apart [] a = tt
      moved_apart (r ∷ m) a = (λ u w. rw v.base (a.0 used w), moved_apart m a.1)

  cons-IsFreed :
      (s : Arena) (l l' : List Arena)
      → IsPool IsOut heap (s ∷ l)
      → Owns l x
      → IsFreed IsOut heap heap' l l' x
      → IsFreed IsOut heap heap' (s ∷ l) (s ∷ l') x
  cons-IsFreed s l l' p owned v = record {
    pool = record {
      slots = (
        record {
          arena = p.slots.0.arena;
          out = λ u. outs _ (p.slots.0.out u);
          empty = p.slots.0.empty;
          used = p.slots.0.used;
        },
        v.pool.slots,
      );
      pairs = (v.front s p.pairs.0, v.pool.pairs);
    };
    front = λ r a. (a.0, v.front r a.1);
    keeps = λ y ne o. elim o [ inl here ↦ inl here | inr there ↦ inr (v.keeps y ne there) ];
    only = λ y o. elim o [
      | inl here ↦ ((λ e. other_arena s l y x p here.0 here.1 owned (sym e)), inl here)
      | inr there ↦ ((v.only y there).0, inr (v.only y there).1)
    ];
  }

module _ {Heap : Type 0} (IsOut : Heap → ℕ → Type 0) (heap : Heap) (x : Block) where
  -- The search finds the arena, and putting an arena back at its place frees the block.
  pub record IsFound (l : List Arena) : Type 0 where
    pub owner : Arena
    pub put_back : Arena → List Arena
    pub search : find_owning_arena l x.address ≡ found owner put_back
    pub used : owner.in_use ≡ true
    pub slot : IsSlot IsOut heap owner
    pub owned : IsOwned owner.buddy x
    pub freed_lem :
        (heap' : Heap) (outs : (q : ℕ) → IsOut heap q → IsOut heap' q) (t : Arena)
        → IsPlace IsOut heap heap' outs x owner t
        → IsFreed IsOut heap heap' l (put_back t) x

  owns_lem :
      (s : Arena)
      → IsSlot IsOut heap s
      → s.in_use ≡ true
      → IsOwned s.buddy x
      → owns_address s x.address ≡ true
  owns_lem s v u o =
      let w = owned_within s.buddy x o in
      let a = (v.arena u).place in
      let end : wrap64 (s.buddy.arena_base + s.buddy.arena_size) ≡ s.buddy.arena_base + max_block =
        omega (arith, a.room, a.size) in
      ground arith

  not_owns_lem :
      (s : Arena) (l : List Arena)
      → IsPool IsOut heap (s ∷ l)
      → Owns l x
      → owns_address s x.address ≡ false
  not_owns_lem s l p o = elim (Bool-cases s.in_use) [
    | inr f ↦ ground arith
    | inl u ↦
        (let a = (p.slots.0.arena u).place in
          let end : wrap64 (s.buddy.arena_base + s.buddy.arena_size)
              ≡ s.buddy.arena_base + max_block =
            omega (arith, a.room, a.size) in
          elim (across s l x u p.pairs.0 o) [
            | inl before ↦ ground arith
            | inr after ↦ ground arith
          ])
  ]

  pub find_lem : (l : List Arena) → IsPool IsOut heap l → Owns l x → IsFound l
  unfolding find_owning_arena
  find_lem [] p o = elim o [ ]
  find_lem (s ∷ l) p (inl (u, o)) = record {
    owner = s;
    put_back = λ t. t ∷ l;
    search = rw (owns_lem s p.slots.0 u o) refl;
    used = u;
    slot = p.slots.0;
    owned = o;
    freed_lem = λ heap' outs t v. head-IsFreed IsOut heap heap' outs x s t l p u o v;
  }
  find_lem (s ∷ l) p (inr o) =
      let r = find_lem l (record { slots = p.slots.1; pairs = p.pairs.1 }) o in
      record {
        owner = r.owner;
        put_back = λ t. s ∷ r.put_back t;
        search = rw (not_owns_lem s l p o, r.search) refl;
        used = r.used;
        slot = r.slot;
        owned = r.owned;
        freed_lem = λ heap' outs t v.
            cons-IsFreed IsOut heap heap' outs x s l (r.put_back t) p o
              (r.freed_lem heap' outs t v);
      }
