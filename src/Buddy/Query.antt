-- ===== src/Buddy/Query.antt =====
-- `v8m_buddy_init`, `v8m_buddy_block_size` and `v8m_buddy_is_empty`, and what the invariant says of two
-- allocated blocks.
use v8malloc.Prelude.{
  ℕ, zero, suc, ◌+◌, ◌-◌, ◌*◌, ◌/◌, ◌^◌, ◌≤◌, ◌<◌, ◌≡◌, refl, sym, ap, ◌∙◌, inl, inr, true, false,
  [], ◌∷◌, arith, ◌==◌, if◌then◌else◌, Bool-cases, leb, ltb, subst, ==→eq,
}
use native.Mathlib.Nat.{pow-suc, mul-div_cancel, mod-eq_of_lt}
use v8malloc.Words.{wrap32, wrap64, test_bit}
use v8malloc.Words.Bits.{test_bit-zero}
use v8malloc.Buddy.{Buddy, levels, max_block, update, init, find_alloc, block_size, level_to_size}
use v8malloc.Buddy.Geometry.{pages, shr, addr, addr-eq, level_to_size-pos, block_in_arena, shr-le}
use v8malloc.Words.Mask.{pow_pos}
use v8malloc.Buddy.Count.{count}
use v8malloc.Buddy.Tiling.{IsTiling, at, same_level}
use v8malloc.Buddy.Tiling.Sums.{sum-at}
use v8malloc.Buddy.Inv.{nothing, IsArena, IsTiling-eq, AllBlocks-update}

-- One block of the top level tiles the arena.
pub whole-IsTiling : IsTiling (at 6 0) (λ l j. false)
unfolding shr
whole-IsTiling = record {
  once = λ p h. sum-at levels 6 (λ l. if shr p l == 0 then 1 else 0) (omega arith) ∙ ground arith;
  parent = λ l p hl hp o. absurd (ground arith);
  nested = λ l p hl hp o. cc;
  leaf = λ l p hl hp o. refl;
}

pub addr-zero : (base l : ℕ) → addr base l 0 ≡ base
unfolding addr
addr-zero base l = omega arith

-- `v8m_buddy_init` on 256 KiB of memory leaves an arena with no allocated block.
pub init-IsArena :
    (arena : ℕ) → 0 < arena → arena + max_block < 2 ^ 64 → IsArena (init arena) nothing
unfolding init update count shr
init-IsArena arena h k = record {
  place = record { based = h; room = k; size = refl };
  tiled =
      IsTiling-eq (at 6 0) _ (λ l j. false) _ whole-IsTiling
        (λ l j hl. ground (arith, addr-eq arena l 0 j, addr-zero arena l, test_bit-zero j))
        (λ l j. test_bit-zero j);
  blocks =
      AllBlocks-update arena (λ level. []) 6 (arena ∷ [])
        ((0, omega arith, sym (addr-zero arena 6)), tt) (λ m hm. tt);
}

pow-add : (a b : ℕ) → 2 ^ (a + b) ≡ 2 ^ b * 2 ^ a
pow-add zero b = let e : 0 + b ≡ b = omega arith in ap (λ x. 2 ^ x) e ∙ omega arith
pow-add (suc a) b =
    let e : suc a + b ≡ suc (a + b) = omega arith in
    ap (λ x. 2 ^ x) e
    ∙ pow-suc 2 (a + b)
    ∙ omega (arith, pow-add a b, ap (λ (t : ℕ). 2 ^ b * t) (pow-suc 2 a))

-- The indices of the page at which the block `i` of level `m + n` starts.
shr-mul : (i n m : ℕ) → shr (i * 2 ^ (m + n)) m ≡ i * 2 ^ n
unfolding shr
shr-mul i n zero = let e : 0 + n ≡ n = omega arith in ap (λ x. i * 2 ^ x) e
shr-mul i n (suc m) =
    let up : suc m + n ≡ m + suc n = omega arith in
    ap (λ x. shr (i * 2 ^ x) m / 2) up
    ∙ ap (λ x. x / 2) (shr-mul i (suc n) m)
    ∙ omega (arith, ap (λ (t : ℕ). i * t) (pow-suc 2 n))

offset_index : (i n m : ℕ) → i * level_to_size (m + n) / level_to_size m ≡ i * 2 ^ n
unfolding level_to_size
offset_index i n m =
    let up : 12 + (m + n) ≡ 12 + m + n = omega arith in
    let split : i * 2 ^ (12 + (m + n)) ≡ i * 2 ^ n * 2 ^ (12 + m) =
      ap (λ e. i * 2 ^ e) up ∙ omega (arith, ap (λ (t : ℕ). i * t) (pow-add (12 + m) n)) in
    ap (λ x. x / 2 ^ (12 + m)) split ∙ mul-div_cancel (i * 2 ^ n) (pow_pos (12 + m))

-- The loop stops at the first level whose bit is set.
find_alloc_lem :
    (k level top offset : ℕ) (b : Buddy)
    → level ≤ top
    → top < level + k
    → ((m : ℕ)
        → level ≤ m
        → m < top
        → test_bit (b.alloc_bitmap m) (wrap32 (offset / level_to_size m)) ≡ false)
    → test_bit (b.alloc_bitmap top) (wrap32 (offset / level_to_size top)) ≡ true
    → find_alloc k b offset level ≡ level_to_size top
unfolding find_alloc
find_alloc_lem zero level top offset b h r below here = absurd (omega arith)
find_alloc_lem (suc k) level top offset b h r below here = elim (Bool-cases (level == top)) [
  | inl e ↦
      let same : top ≡ level = sym (==→eq level top e) in
      let here' =
        subst (λ t. test_bit (b.alloc_bitmap t) (wrap32 (offset / level_to_size t)) ≡ true) same
          here in
      rw here' (ap level_to_size (sym same))
  | inr ne ↦
      let ne' : level < top = ground arith in
      rw (below level (omega arith) ne') (
        find_alloc_lem k (suc level) top offset b ne' (omega arith)
          (λ m lo hi. below m (omega arith) hi) here)
]

inside_lt : (i s : ℕ) → (i + 1) * s ≤ max_block → 0 < s → i * s < max_block
inside_lt i s h k = omega arith

-- The page at which a block starts.
start_page :
    (l p : ℕ)
    → l < levels
    → p < pages
    → (shr p l * 2 ^ l < pages) × (shr (shr p l * 2 ^ l) l ≡ shr p l)
unfolding shr
start_page zero p hl hp = (omega arith, omega arith)
start_page (suc zero) p hl hp = (omega arith, omega arith)
start_page (suc (suc zero)) p hl hp = (omega arith, omega arith)
start_page (suc (suc (suc zero))) p hl hp = (omega arith, omega arith)
start_page (suc (suc (suc (suc zero)))) p hl hp = (omega arith, omega arith)
start_page (suc (suc (suc (suc (suc zero))))) p hl hp = (omega arith, omega arith)
start_page (suc (suc (suc (suc (suc (suc zero)))))) p hl hp = (omega arith, omega arith)
start_page (suc (suc (suc (suc (suc (suc (suc l))))))) p hl hp = absurd (omega arith)

-- The index at level `m` of the page at which the block of level `l` that holds `p` starts.
start_index :
    (l p m : ℕ)
    → l < levels
    → p < pages
    → m ≤ l
    → wrap32 (shr p l * level_to_size l / level_to_size m) ≡ shr (shr p l * 2 ^ l) m
start_index l p m hl hp hm =
    let i = shr p l in
    let n = l - m in
    let e : m + n ≡ l = omega arith in
    let index =
      subst (λ x. i * level_to_size x / level_to_size m ≡ i * 2 ^ n) e (offset_index i n m) in
    let start = subst (λ x. shr (i * 2 ^ x) m ≡ i * 2 ^ n) e (shr-mul i n m) in
    let small = (start_page l p hl hp).0 in
    ap wrap32 (index ∙ sym start) ∙ mod-eq_of_lt (omega (arith, shr-le m (i * 2 ^ l)))

module _ (b : Buddy) (a : IsArena b nothing) where
  -- Two allocated blocks that share a page are one block.
  pub allocated_apart :
      (l k p : ℕ)
      → l < levels
      → k < levels
      → p < pages
      → test_bit (b.alloc_bitmap l) (shr p l) ≡ true
      → test_bit (b.alloc_bitmap k) (shr p k) ≡ true
      → l ≡ k
  allocated_apart l k p hl hk hp one other =
      same_level a.tiled p l k hp hl hk (ground arith) (ground arith)

  -- `v8m_buddy_block_size` of an allocated block is the size of its level.
  pub block_size_lem :
      (l p : ℕ)
      → l < levels
      → p < pages
      → test_bit (b.alloc_bitmap l) (shr p l) ≡ true
      → block_size b (addr b.arena_base l (shr p l)) ≡ level_to_size l
  unfolding block_size addr
  block_size_lem l p hl hp here =
      let i = shr p l in
      let fits = block_in_arena l p hl hp in
      let pos = level_to_size-pos l in
      let not_null : (b.arena_base + i * level_to_size l == 0) ≡ false =
        ground (arith, a.place.based) in
      let not_below : ltb (b.arena_base + i * level_to_size l) b.arena_base ≡ false =
        ground arith in
      let end : wrap64 (b.arena_base + b.arena_size) ≡ b.arena_base + max_block =
        omega (arith, a.place.room, a.place.size) in
      let inside : leb (b.arena_base + max_block) (b.arena_base + i * level_to_size l) ≡ false =
        ground (arith, inside_lt i (level_to_size l) fits pos) in
      let offset : b.arena_base + i * level_to_size l - b.arena_base ≡ i * level_to_size l =
        omega arith in
      rw (not_null, not_below, end, inside, offset)
        (find_alloc_lem levels 0 l (i * level_to_size l) b (omega arith) (omega arith)
          (λ m lo hi. unset m hi (omega arith))
          (rw (start_index l p l hl hp (omega arith), (start_page l p hl hp).1) here))
    where
      unset :
          (m : ℕ)
          → m < l
          → m < levels
          → test_bit (b.alloc_bitmap m) (wrap32 (shr p l * level_to_size l / level_to_size m))
            ≡ false
      unset m lt hm =
          let q = shr p l * 2 ^ l in
          let start = start_page l p hl hp in
          rw (start_index l p m hl hp (omega arith))
            (elim (Bool-cases (test_bit (b.alloc_bitmap m) (shr q m))) [
              | inr f ↦ f
              | inl set ↦
                  let own : test_bit (b.alloc_bitmap l) (shr q l) ≡ true = rw start.1 here in
                  absurd (omega (arith, allocated_apart m l q hm hl start.0 set own))
            ])
