-- ===== src/BuddyPool/Sweep/Slot.antt =====
-- One slot of a sweep: it is held or given back.
use v8malloc.Prelude.{
  ℕ, ◌+◌, ◌-◌, ◌^◌, ◌≤◌, ◌<◌, ◌≡◌, ◌⊎◌, refl, inl, inr, Bool, true, false, not, ◌&&◌, ◌||◌, List,
  [], ◌∷◌, arith, ltb, leb, if◌then◌else◌, Bool-cases, subst,
}
use v8malloc.Buddy.{max_block}
use v8malloc.PageSource.{PageSource}
use v8malloc.BuddyPool.{Arena, sweep_slot}

-- How a slot fares in a sweep: it stays as it is but for its ticks, or it is given back. Only a drained
-- arena in use counts a tick, up to the end of the counter's 32 bits.
pub record IsHeld (limit : ℕ) (s t : Arena) : Type 0 where
  pub buddy : t.buddy ≡ s.buddy
  pub in_use : t.in_use ≡ s.in_use
  pub drained : t.drained ≡ s.drained
  pub ticks : t.idle_ticks ≡ (
      if s.in_use && s.drained && ltb s.idle_ticks (2 ^ 32 - 1)
      then s.idle_ticks + 1
      else s.idle_ticks)
  pub young : s.in_use ≡ true → s.drained ≡ true → t.idle_ticks < limit

pub record IsReleased (limit : ℕ) (s t : Arena) : Type 0 where
  pub was_used : s.in_use ≡ true
  pub was_drained : s.drained ≡ true
  pub old : limit ≤ s.idle_ticks + 1
  pub unused : t.in_use ≡ false
  pub undrained : t.drained ≡ false
  pub reset : t.idle_ticks ≡ 0

abbrev Fate : ℕ → Arena → Arena × Bool → Type 0
Fate limit s r = ((r.1 ≡ false) × IsHeld limit s r.0) ⊎ ((r.1 ≡ true) × IsReleased limit s r.0)

abbrev ticked : Arena → ℕ
ticked s = if ltb s.idle_ticks (2 ^ 32 - 1) then s.idle_ticks + 1 else s.idle_ticks

stays_lem :
    (limit : ℕ) (s : Arena)
    → (not s.in_use || not s.drained) ≡ true
    → (s, false) ≡ sweep_slot limit s
unfolding sweep_slot
stays_lem limit s t = ground arith

module _ (limit : ℕ) (s : Arena) (idle : (not s.in_use || not s.drained) ≡ false) where
  goes_lem :
      leb limit (ticked s) ≡ true
      → (record s { in_use = false; drained = false; idle_ticks = 0 }, true) ≡ sweep_slot limit s
  unfolding sweep_slot
  goes_lem t = ground arith

  waits_lem :
      leb limit (ticked s) ≡ false
      → (record s { idle_ticks = ticked s }, false) ≡ sweep_slot limit s
  unfolding sweep_slot
  waits_lem t = ground arith

pub sweep_slot_lem : (limit : ℕ) (s : Arena) → Fate limit s (sweep_slot limit s)
sweep_slot_lem limit s = elim (Bool-cases (not s.in_use || not s.drained)) [
  | inl t ↦ subst (Fate limit s) (stays_lem limit s t) (
      inl (
        refl,
        record {
          buddy = refl;
          in_use = refl;
          drained = refl;
          ticks = ground arith;
          young = λ u d. ground arith;
        },
      ))
  | inr idle ↦ elim (Bool-cases (leb limit (ticked s))) [
    | inl t ↦ subst (Fate limit s) (goes_lem limit s idle t) (
        inr (
          refl,
          record {
            was_used = ground arith;
            was_drained = ground arith;
            old = ground arith;
            unused = refl;
            undrained = refl;
            reset = refl;
          },
        ))
    | inr f ↦ subst (Fate limit s) (waits_lem limit s idle f) (
        inl (
          refl,
          record {
            buddy = refl;
            in_use = refl;
            drained = refl;
            ticks = ground arith;
            young = λ u d. ground arith;
          },
        ))
  ]
]

-- The slots before and after, how many are given back, and the heap before and after: an arena that is
-- given back goes to `page_heap_free`, in the order of the slots, and no other call is made.
abbrev pub AllFates :
    {Heap : Type 0} → PageSource Heap → ℕ → Heap → List Arena → Heap → List Arena → ℕ → Type 0
AllFates os limit heap [] heap' [] n = (heap' ≡ heap) × (n ≡ 0)
AllFates os limit heap [] heap' (t ∷ after) n = ⊥
AllFates os limit heap (s ∷ before) heap' [] n = ⊥
AllFates os limit heap (s ∷ before) heap' (t ∷ after) n =
    (IsHeld limit s t × AllFates os limit heap before heap' after n)
    ⊎ (IsReleased limit s t
        × (m : ℕ) × (n ≡ 1 + m)
        × AllFates os limit (os.page_heap_free heap s.buddy.arena_base max_block) before heap' after
            m)
