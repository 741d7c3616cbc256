-- ===== src/Slab/Small/Laws.antt =====
-- The free list of a small page as a stack of slots.
use v8malloc.Prelude.{
  ℕ, suc, ◌+◌, ◌-◌, ◌*◌, ◌^◌, ◌≤◌, ◌<◌, ◌≡◌, ◌≢◌, refl, sym, ◌∙◌, inl, inr, true, false, List, [],
  ◌∷◌, ltb, ◌==◌, arith, Bool-cases, ltb→lt, eq→==, ne→==, length,
}
use native.Mathlib.Nat.{mul-le-mul_right, suc-mul}
use v8malloc.Words.{wrap32, sub32}
use v8malloc.Slab.Small.{SmallMeta, Memory, store, data_offset, alloc, free, is_full}

abbrev pub slot_address : ℕ → ℕ → ℕ → ℕ
slot_address page size slot = page + data_offset size + slot * size

-- The links from `head` on visit the slots of the list, and end at NULL.
abbrev pub Chain : Memory → ℕ → ℕ → ℕ → List ℕ → Type 0
Chain mem page size head [] = head ≡ 0
Chain mem page size head (s ∷ rest) =
    (head ≡ slot_address page size s) × Chain mem page size (mem head) rest

abbrev pub IsAbsent : ℕ → List ℕ → Type 0
IsAbsent s [] = Unit {0}
IsAbsent s (x ∷ rest) = (x ≢ s) × IsAbsent s rest

-- No slot stands twice in the list, and all lie below the capacity.
abbrev pub IsSlotList : ℕ → List ℕ → Type 0
IsSlotList capacity [] = Unit {0}
IsSlotList capacity (x ∷ rest) = (x < capacity) × IsAbsent x rest × IsSlotList capacity rest

-- The slots of `frees`, first to last, are the free ones of the page.
pub record IsSmall (page : ℕ) (mem : Memory) (m : SmallMeta) (frees : List ℕ) : Type 0 where
  pub based : 0 < page
  pub room : page + 65536 < 2 ^ 64
  pub sized : 0 < m.object_size
  pub fits : data_offset m.object_size + m.capacity * m.object_size ≤ 65536
  pub bounded : m.capacity ≤ 8192
  pub chain : Chain mem page m.object_size m.free_list_head frees
  pub slots : IsSlotList m.capacity frees
  pub counted : m.used_count + length frees ≡ m.capacity

slot_address-ne :
    (page size s x : ℕ) → 0 < size → x ≢ s → slot_address page size x ≢ slot_address page size s
slot_address-ne page size s x h ne e = elim (Bool-cases (ltb x s)) [
  | inl lt ↦
      let step = mul-le-mul_right {m = suc x} {n = s} size (ltb→lt x s lt) in
      omega (arith, suc-mul x size)
  | inr ge ↦
      let gt : suc s ≤ x = ground arith in
      let step = mul-le-mul_right {m = suc s} {n = x} size gt in omega (arith, suc-mul s size)
]

-- A write to an object outside the list leaves the list.
pub Chain-store :
    (mem : Memory) (page size head s v : ℕ) (slots : List ℕ)
    → 0 < size
    → IsAbsent s slots
    → Chain mem page size head slots
    → Chain (store mem (slot_address page size s) v) page size head slots
unfolding store
Chain-store mem page size head s v [] h a c = c
Chain-store mem page size head s v (x ∷ rest) h a c =
    let ne : (head == slot_address page size s) ≡ false =
      ne→== _ _ (λ e. slot_address-ne page size s x h a.0 (sym c.0 ∙ e)) in
    (c.0, rw ne (Chain-store mem page size (mem head) s v rest h a.1 c.1))

pub store_self : (mem : Memory) (a v : ℕ) → store mem a v a ≡ v
unfolding store
store_self mem a v = rw (eq→== a a refl) refl

-- `v8m_slab_small_alloc` on a page with a free slot returns the first slot of the free list, takes
-- it off the list, counts it as used, and keeps the invariant.
pub pops_slot :
    (page : ℕ) (mem : Memory) (m : SmallMeta) (s : ℕ) (rest : List ℕ)
    → IsSmall page mem m (s ∷ rest)
    → ((alloc mem m).1 ≡ slot_address page m.object_size s) × IsSmall page mem (alloc mem m).0 rest
unfolding alloc
pops_slot page mem m s rest v =
    let b = v.based in
    let chain = v.chain in
    let some_slot : (m.free_list_head == 0) ≡ false = ne→== _ _ (λ z. omega (arith, chain.0)) in
    let used : wrap32 (m.used_count + 1) ≡ suc m.used_count = omega (arith, v.counted, v.bounded) in
    rw (some_slot, used)
      (
        chain.0,
        record {
          based = v.based;
          room = v.room;
          sized = v.sized;
          fits = v.fits;
          bounded = v.bounded;
          chain = chain.1;
          slots = v.slots.2;
          counted = omega (arith, v.counted);
        },
      )

-- Where the free list is empty `v8m_slab_small_alloc` returns NULL, changes nothing, and the page is full.
pub alloc-exhausted :
    (page : ℕ) (mem : Memory) (m : SmallMeta)
    → IsSmall page mem m []
    → (alloc mem m ≡ (m, 0)) × (is_full m ≡ true)
unfolding alloc is_full
alloc-exhausted page mem m v =
    let none_left : (m.free_list_head == 0) ≡ true = eq→== _ _ v.chain in
    (rw none_left refl, eq→== _ _ (omega (arith, v.counted)))

-- `v8m_slab_small_free` of a slot that is not free puts it in front of the free list, keeps the
-- invariant, and says whether it was the last one in use.
pub pushes_slot :
    (page : ℕ) (mem : Memory) (m : SmallMeta) (s : ℕ) (frees : List ℕ)
    → IsSmall page mem m frees
    → s < m.capacity
    → IsAbsent s frees
    → 0 < m.used_count
    → let (mem', m', empty) = free mem m (slot_address page m.object_size s) in
      IsSmall page mem' m' (s ∷ frees) × (empty ≡ (m.used_count == 1))
unfolding free
pushes_slot page mem m s frees v h absent in_use =
    let used : sub32 m.used_count 1 ≡ m.used_count - 1 = omega (arith, v.counted, v.bounded) in
    let top = slot_address page m.object_size s in
    let pushed-Chain : Chain (store mem top m.free_list_head) page m.object_size
        (store mem top m.free_list_head top) frees =
      rw (store_self mem top m.free_list_head) (
        Chain-store mem page m.object_size m.free_list_head s m.free_list_head frees v.sized absent
          v.chain) in
    rw used (
      record {
        based = v.based;
        room = v.room;
        sized = v.sized;
        fits = v.fits;
        bounded = v.bounded;
        chain = (refl, pushed-Chain);
        slots = (h, absent, v.slots);
        counted = omega (arith, v.counted);
      },
      refl,
    )
