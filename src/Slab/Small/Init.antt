-- ===== src/Slab/Small/Init.antt =====
-- What `v8m_slab_small_init` leaves behind.
use v8malloc.Prelude.{
  ℕ, zero, suc, ◌+◌, ◌-◌, ◌*◌, ◌/◌, ◌^◌, ◌≤◌, ◌<◌, ◌≡◌, refl, sym, ap, List, [], ◌∷◌, arith, length,
  subst,
}
use native.Mathlib.Nat.{mul-le-mul_left, mul-le-mul_right, suc-mul, div-mul-le_self}
use v8malloc.Words.{wrap16, wrap64}
use v8malloc.SizeClass.{Table, size_class_size}
use v8malloc.Slab.Small.{Memory, store, data_offset, capacity_for, slab_data, link_slots, init}
use v8malloc.Slab.Small.Laws.{
  slot_address, Chain, IsAbsent, IsSlotList, IsSmall, Chain-store, store_self,
}

-- The slots from `s` on, `n` of them.
unfoldable pub slots_from : ℕ → ℕ → List ℕ
slots_from s zero = []
slots_from s (suc n) = s ∷ slots_from (suc s) n

length-slots_from : (s n : ℕ) → length (slots_from s n) ≡ n
unfolding slots_from
length-slots_from s zero = refl
length-slots_from s (suc n) = ap suc (length-slots_from (suc s) n)

slots_from-IsAbsent : (x s n : ℕ) → x < s → IsAbsent x (slots_from s n)
unfolding slots_from
slots_from-IsAbsent x s zero h = tt
slots_from-IsAbsent x s (suc n) h =
    (λ e. omega arith, slots_from-IsAbsent x (suc s) n (omega arith))

slots_from-IsSlotList : (cap s n : ℕ) → s + n ≤ cap → IsSlotList cap (slots_from s n)
unfolding slots_from
slots_from-IsSlotList cap s zero h = tt
slots_from-IsSlotList cap s (suc n) h = (
  omega arith,
  slots_from-IsAbsent s (suc s) n (omega arith),
  slots_from-IsSlotList cap (suc s) n (omega arith),
)

-- The loop extends the chain of the slots from `k` on to a chain of all slots.
link_slots-Chain :
    (page size k n : ℕ) (mem : Memory) (head : ℕ)
    → 0 < size
    → page + data_offset size + (k + n) * size < 2 ^ 64
    → Chain mem page size head (slots_from k n)
    → let (mem', head') = link_slots k (slab_data page size) size mem head in
      Chain mem' page size head' (slots_from 0 (k + n))
unfolding link_slots
link_slots-Chain page size zero n mem head h room c =
    let e : n ≡ 0 + n = omega arith in subst (λ x. Chain mem page size head (slots_from 0 x)) e c
link_slots-Chain page size (suc k) n mem head h room c =
    let obj = slot_address page size k in
    let step = mul-le-mul_right {m = suc k} {n = suc k + n} size (omega arith) in
    let addr : wrap64 (wrap64 (page + data_offset size) + k * size) ≡ obj =
      omega (arith, suc-mul k size) in
    let e : k + suc n ≡ suc k + n = omega arith in
    let area = slab_data page size in
    let first : link_slots (suc k) area size mem head
        ≡ link_slots k area size (store mem obj head) obj =
      ap (λ a. link_slots k area size (store mem a head) a) addr in
    subst (λ r. Chain r.0 page size r.1 (slots_from 0 (suc k + n))) (sym first)
      (subst
        (λ x.
          Chain (link_slots k (slab_data page size) size (store mem obj head) obj).0 page size
            (link_slots k (slab_data page size) size (store mem obj head) obj).1 (slots_from 0 x))
        e
        (link_slots-Chain page size k (suc n) (store mem obj head) obj h
          (subst (λ x. page + data_offset size + x * size < 2 ^ 64) (sym e) room)
          (unfold slots_from in
            (
              refl,
              rw (store_self mem obj head) (
                  Chain-store mem page size head k head (slots_from (suc k) n) h
                    (slots_from-IsAbsent k (suc k) n (omega arith)) c),
            ))))

capacity_for-bound : (size : ℕ) → capacity_for size ≤ (65536 - data_offset size) / size
unfolding capacity_for
capacity_for-bound size = ground arith

data_offset-bound : (size : ℕ) → size < 65536 → data_offset size ≤ 65536
unfolding data_offset
data_offset-bound size h = ground arith

module _ (size : ℕ) (h : 8 ≤ size) (k : size < 65536) where
  capacity_for-fits : data_offset size + capacity_for size * size ≤ 65536
  capacity_for-fits = omega (
    arith,
    data_offset-bound size k,
    mul-le-mul_right size (capacity_for-bound size),
    div-mul-le_self (65536 - data_offset size) size,
  )

  capacity_for-bounded : capacity_for size ≤ 8192
  capacity_for-bounded = omega (arith, capacity_for-fits, mul-le-mul_left (capacity_for size) h)

-- `v8m_slab_small_init` of a class of 8 bytes to 64 KiB, on a page that is not at NULL and ends below
-- the end of the address space, leaves a page whose slots are all free, in their order.
pub init-IsSmall :
    (table : Table) (page : ℕ) (mem : Memory) (class owner cpu : ℕ)
    → 0 < page
    → page + 65536 < 2 ^ 64
    → 8 ≤ wrap16 (size_class_size table class)
    → let (mem', m) = init table page mem class owner cpu in
      IsSmall page mem' m (slots_from 0 m.capacity)
unfolding init
init-IsSmall table page mem class owner cpu based room sized =
    let size = wrap16 (size_class_size table class) in
    let small : size < 65536 = omega arith in
    let fits = capacity_for-fits size sized small in
    let cap = capacity_for size in
    let all : cap + 0 ≡ cap = omega arith in
    let ends : page + data_offset size + (cap + 0) * size < 2 ^ 64 =
      subst (λ x. page + data_offset size + x * size < 2 ^ 64) (sym all) (omega arith) in
    record {
      based = based;
      room = room;
      sized = omega arith;
      fits = fits;
      bounded = capacity_for-bounded size sized small;
      chain =
          subst
            (λ x.
              Chain (link_slots cap (slab_data page size) size mem 0).0 page size
                (link_slots cap (slab_data page size) size mem 0).1 (slots_from 0 x))
            all
            (link_slots-Chain page size cap 0 mem 0 (omega arith) ends (unfold slots_from in refl));
      slots = slots_from-IsSlotList cap 0 cap (omega arith);
      counted = omega (arith, length-slots_from 0 cap);
    }
