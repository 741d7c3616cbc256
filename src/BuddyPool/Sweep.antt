-- ===== src/BuddyPool/Sweep.antt =====
-- `v8m_buddy_pool_sweep_idle`: it gives back drained arenas alone, which hold no allocated block.
pub mod Slot
use v8malloc.Prelude.{
  ℕ, zero, suc, ◌+◌, ◌-◌, ◌^◌, ◌≤◌, ◌<◌, ◌≡◌, ◌≢◌, ◌⊎◌, refl, sym, ap, ◌∙◌, inl, inr, Bool, true,
  false, not, ◌&&◌, ◌||◌, List, [], ◌∷◌, arith, ltb, leb, ◌==◌, if◌then◌else◌, Bool-cases, ==→eq,
  eq→==, ne→==, subst,
}
use v8malloc.Buddy.{max_block, is_empty}
use v8malloc.Buddy.Inv.{IsArena, nothing}
use v8malloc.Buddy.Reach.{Block, IsOwned}
use v8malloc.PageSource.{PageSource, IsPageSource, AreApart}
use v8malloc.BuddyPool.{Arena, sweep_slot, sweep_idle, validate}
use v8malloc.BuddyPool.Inv.{IsSlot, AllSlots, IsApartFrom, Owns, IsPool}
use v8malloc.BuddyPool.Free.OneArena.{owned_live, clash}
use v8malloc.BuddyPool.Sweep.Slot.{IsHeld, IsReleased, AllFates, sweep_slot_lem}

-- The address of no arena in use.
abbrev IsAway : ℕ → List Arena → Type 0
IsAway q [] = Unit {0}
IsAway q (s ∷ rest) = (s.in_use ≡ true → s.buddy.arena_base ≢ q) × IsAway q rest

pub record IsSwept {Heap : Type 0} (IsOut : Heap → ℕ → Type 0) (heap heap' : Heap)
    (l l' : List Arena) : Type 0 where
  pub pool : IsPool IsOut heap' l'
  pub front : (s : Arena) → IsApartFrom s l → IsApartFrom s l'
  pub outs : (q : ℕ) → IsAway q l → IsOut heap q → IsOut heap' q
  pub keeps : (y : Block) → Owns l y → Owns l' y

IsApartFrom-IsAway :
    (s : Arena) (l : List Arena) → s.in_use ≡ true → IsApartFrom s l → IsAway s.buddy.arena_base l
IsApartFrom-IsAway s [] u a = tt
IsApartFrom-IsAway s (t ∷ l) u a = (
  (λ w e. elim (a.0 u w) [ inl b ↦ omega arith | inr b ↦ omega arith ]),
  IsApartFrom-IsAway s l u a.1,
)

zero_add : (n : ℕ) → n ≡ 0 + n
zero_add n = omega arith

-- An invariant pool has no violation to report.
pub validate-IsPool :
    {Heap : Type 0} (IsOut : Heap → ℕ → Type 0) (heap : Heap) (arenas : List Arena)
    → IsPool IsOut heap arenas
    → validate arenas ≡ 0
unfolding validate
validate-IsPool IsOut heap [] p = refl
validate-IsPool IsOut heap (s ∷ rest) p =
    let later = validate-IsPool IsOut heap rest (record { slots = p.slots.1; pairs = p.pairs.1 }) in
    let v = p.slots.0 in
    elim (Bool-cases s.in_use) [
      | inl u ↦ let b = (v.arena u).place.based in ground arith
      | inr f ↦ let d = v.used f in ground arith
    ]

module _ {Heap : Type 0} (IsOut : Heap → ℕ → Type 0) (os : PageSource Heap)
    (promise : IsPageSource os max_block IsOut) (limit : ℕ) where
  abbrev Result : Heap → List Arena → Heap × List Arena × ℕ → Type 0
  Result heap l r = IsSwept IsOut heap r.0 l r.1 × AllFates os limit heap l r.0 r.1 r.2

  held_lem :
      (heap : Heap) (s t : Arena) (l : List Arena)
      → sweep_slot limit s ≡ (t, false)
      → let later = sweep_idle os limit heap l in
        (later.0, t ∷ later.1, 0 + later.2) ≡ sweep_idle os limit heap (s ∷ l)
  unfolding sweep_idle
  held_lem heap s t l e = ground arith

  released_lem :
      (heap : Heap) (s t : Arena) (l : List Arena)
      → sweep_slot limit s ≡ (t, true)
      → let later = sweep_idle os limit (os.page_heap_free heap s.buddy.arena_base max_block) l in
        (later.0, t ∷ later.1, 1 + later.2) ≡ sweep_idle os limit heap (s ∷ l)
  unfolding sweep_idle
  released_lem heap s t l e = ground arith

  held_slot :
      (heap heap' : Heap) (s t : Arena)
      → IsHeld limit s t
      → IsSlot IsOut heap s
      → (s.in_use ≡ true → IsOut heap' s.buddy.arena_base)
      → IsSlot IsOut heap' t
  held_slot heap heap' s t h v out = record {
    arena = λ u. subst (λ b. IsArena b nothing) (sym h.buddy) (v.arena (sym h.in_use ∙ u));
    out = λ u. subst (λ b. IsOut heap' b.arena_base) (sym h.buddy) (out (sym h.in_use ∙ u));
    empty = λ d. ap is_empty h.buddy ∙ v.empty (sym h.drained ∙ d);
    used = λ f. h.drained ∙ v.used (sym h.in_use ∙ f);
  }

  held_front : (s t : Arena) (l : List Arena) → IsHeld limit s t → IsApartFrom s l → IsApartFrom t l
  held_front s t [] h a = tt
  held_front s t (r ∷ l) h a = (
    (λ u w.
        subst (λ b. AreApart max_block b.arena_base r.buddy.arena_base) (sym h.buddy)
          (a.0 (sym h.in_use ∙ u) w)),
    held_front s t l h a.1,
  )

  held-IsSwept :
      (heap heap' : Heap) (s t : Arena) (l l' : List Arena)
      → IsHeld limit s t
      → IsPool IsOut heap (s ∷ l)
      → IsSwept IsOut heap heap' l l'
      → IsSwept IsOut heap heap' (s ∷ l) (t ∷ l')
  held-IsSwept heap heap' s t l l' h p v = record {
    pool = record {
      slots = (
        held_slot heap heap' s t h p.slots.0
            (λ u. v.outs _ (IsApartFrom-IsAway s l u p.pairs.0) (p.slots.0.out u)),
        v.pool.slots,
      );
      pairs = (held_front s t l' h (v.front s p.pairs.0), v.pool.pairs);
    };
    front = λ r a. (
      (λ u w.
          subst (λ b. AreApart max_block r.buddy.arena_base b.arena_base) (sym h.buddy)
            (a.0 u (sym h.in_use ∙ w))),
      v.front r a.1,
    );
    outs = λ q away o. v.outs q away.1 o;
    keeps = λ y o. elim o [
      | inl here ↦ inl (h.in_use ∙ here.0, subst (λ b. IsOwned b y) (sym h.buddy) here.1)
      | inr there ↦ inr (v.keeps y there)
    ];
  }

  -- The rest of the pool after an arena is given back.
  rest_slots :
      (heap : Heap) (s : Arena) (l : List Arena)
      → s.in_use ≡ true
      → IsApartFrom s l
      → AllSlots IsOut heap l
      → AllSlots IsOut (os.page_heap_free heap s.buddy.arena_base max_block) l
  rest_slots heap s [] u a v = tt
  rest_slots heap s (t ∷ l) u a v = (
    record {
      arena = v.0.arena;
      out = λ w.
          promise.free_keeps heap s.buddy.arena_base t.buddy.arena_base
            (λ e. elim (a.0 u w) [ inl b ↦ omega arith | inr b ↦ omega arith ]) (v.0.out w);
      empty = v.0.empty;
      used = v.0.used;
    },
    rest_slots heap s l u a.1 v.1,
  )

  unused_front : (t : Arena) (l : List Arena) → t.in_use ≡ false → IsApartFrom t l
  unused_front t [] f = tt
  unused_front t (r ∷ l) f = ((λ u w. absurd (clash (sym u ∙ f))), unused_front t l f)

  released-IsSwept :
      (heap heap' : Heap) (s t : Arena) (l l' : List Arena)
      → IsReleased limit s t
      → IsPool IsOut heap (s ∷ l)
      → IsSwept IsOut (os.page_heap_free heap s.buddy.arena_base max_block) heap' l l'
      → IsSwept IsOut heap heap' (s ∷ l) (t ∷ l')
  released-IsSwept heap heap' s t l l' r p v = record {
    pool = record {
      slots = (
        record {
          arena = λ u. absurd (clash (sym u ∙ r.unused));
          out = λ u. absurd (clash (sym u ∙ r.unused));
          empty = λ d. absurd (clash (sym d ∙ r.undrained));
          used = λ f. r.undrained;
        },
        v.pool.slots,
      );
      pairs = (unused_front t l' r.unused, v.pool.pairs);
    };
    front = λ q a. ((λ u w. absurd (clash (sym w ∙ r.unused))), v.front q a.1);
    outs = λ q away o.
        v.outs q away.1 (promise.free_keeps heap s.buddy.arena_base q (away.0 r.was_used) o);
    keeps = λ y o. elim o [
      | inl here ↦
          absurd (clash (sym (p.slots.0.empty r.was_drained) ∙ owned_live s.buddy y here.1))
      | inr there ↦ inr (v.keeps y there)
    ];
  }

  -- `v8m_buddy_pool_sweep_idle` keeps the pool's invariant and every allocated block. A drained arena in use
  -- either stays, counts one idle tick more (up to the end of the counter's 32 bits) and is then younger than
  -- the limit; or, with this tick, it was old enough: then its slot is unused afterwards and the arena is
  -- given to `v8m_page_heap_free`. Every other slot stays as it is. There are no other calls of the page
  -- heap, and the result counts these.
  pub sweep_idle_lem :
      (heap : Heap) (l : List Arena)
      → IsPool IsOut heap l
      → IsSwept IsOut heap ((sweep_idle os limit heap l).0) l ((sweep_idle os limit heap l).1)
        × AllFates os limit heap l
            ((sweep_idle os limit heap l).0)
            ((sweep_idle os limit heap l).1)
            ((sweep_idle os limit heap l).2)
  unfolding sweep_idle
  sweep_idle_lem heap [] p =
      (record { pool = p; front = λ s a. a; outs = λ q a o. o; keeps = λ y o. o }, (refl, refl))
  sweep_idle_lem heap (s ∷ l) p = elim (sweep_slot_lem limit s) [
    | inl (e, h) ↦
        (let t = (sweep_slot limit s).0 in
          let later = sweep_idle_lem heap l (record { slots = p.slots.1; pairs = p.pairs.1 }) in
          subst (Result heap (s ∷ l)) (held_lem heap s t l (ap (λ b. (t, b)) e)) (
            held-IsSwept heap _ s t l _ h p later.0,
            inl (
              h,
              subst (AllFates os limit heap l _ _) (zero_add (sweep_idle os limit heap l).2)
                  later.1,
            ),
          ))
    | inr (e, r) ↦
        (let t = (sweep_slot limit s).0 in
          let heap1 = os.page_heap_free heap s.buddy.arena_base max_block in
          let later = sweep_idle_lem heap1 l (record {
            slots = rest_slots heap s l r.was_used p.pairs.0 p.slots.1;
            pairs = p.pairs.1;
          }) in
          subst (Result heap (s ∷ l)) (released_lem heap s t l (ap (λ b. (t, b)) e)) (
            released-IsSwept heap _ s t l _ r p later.0,
            inr (r, (sweep_idle os limit heap1 l).2, refl, later.1),
          ))
  ]
