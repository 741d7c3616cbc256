-- ===== src/Buddy/Geometry.antt =====
-- Levels, blocks and pages: a block of level `l` is 2^l of the arena's 64 pages of 4 KiB, and its index
-- is that of any of its pages, shifted right by `l`.
use v8malloc.Prelude.{
  ℕ, zero, suc, ◌+◌, ◌-◌, ◌*◌, ◌/◌, ◌%◌, ◌^◌, ◌≤◌, ◌<◌, ◌≡◌, ◌≢◌, refl, ap, ◌∙◌, ◌⊎◌, inl, inr,
  arith, leb, ltb, ◌==◌, if◌then◌else◌, Bool-cases, sym, ==→eq, eq→==, ne→==,
}
use native.Mathlib.Nat.{pow-suc, mod-eq_of_lt, div-eq_of_eq-mul_left, mul-div_cancel}
use v8malloc.Words.{wrap64, sub64, msb}
use v8malloc.Words.Mask
use v8malloc.Words.Scan.{msb_bounds}
use v8malloc.SizeClass.Fit.{msb_between}
use v8malloc.Buddy.{
  Buddy, size_to_level, level_to_size, addr_to_index, index_to_node, flip, levels, min_block,
  max_block,
}

-- The number of pages of an arena.
abbrev pub pages : ℕ
pages = 64

-- `p >> l`, the index of the block of level `l` that holds the page `p`.
unfoldable pub shr : ℕ → ℕ → ℕ
shr p zero = p
shr p (suc l) = shr p l / 2

pub level_to_size-suc : (l : ℕ) → level_to_size (suc l) ≡ 2 * level_to_size l
unfolding level_to_size
level_to_size-suc l = ap (λ e. 2 ^ e) (omega arith) ∙ pow-suc 2 (12 + l) ∙ omega arith

pub level_to_size-pos : (l : ℕ) → 0 < level_to_size l
unfolding level_to_size
level_to_size-pos l = Mask.pow_pos (12 + l)

pub shr-le : (l p : ℕ) → shr p l ≤ p
unfolding shr
shr-le zero p = omega arith
shr-le (suc l) p = omega (arith, shr-le l p)

-- A block of level `l` that holds a page of the arena ends in the arena.
pub block_in_arena :
    (l p : ℕ) → l < levels → p < pages → (shr p l + 1) * level_to_size l ≤ max_block
unfolding shr level_to_size
block_in_arena zero p h k = omega arith
block_in_arena (suc zero) p h k = omega arith
block_in_arena (suc (suc zero)) p h k = omega arith
block_in_arena (suc (suc (suc zero))) p h k = omega arith
block_in_arena (suc (suc (suc (suc zero)))) p h k = omega arith
block_in_arena (suc (suc (suc (suc (suc zero))))) p h k = omega arith
block_in_arena (suc (suc (suc (suc (suc (suc zero)))))) p h k = omega arith
block_in_arena (suc (suc (suc (suc (suc (suc (suc l))))))) p h k = absurd (omega arith)

-- The address of a block.
unfoldable pub addr : ℕ → ℕ → ℕ → ℕ
addr base l i = base + i * level_to_size l

-- An arena that is not at NULL and ends below the end of the address space.
pub record IsBased (b : Buddy) : Type 0 where
  pub based : 0 < b.arena_base
  pub room : b.arena_base + max_block < 2 ^ 64
  pub size : b.arena_size ≡ max_block

pub addr-pos : (b : Buddy) (l i : ℕ) → IsBased b → 0 < addr b.arena_base l i
unfolding addr
addr-pos b l i v = omega (arith, v.based)

pub addr-eq : (base l i j : ℕ) → (addr base l i == addr base l j) ≡ (j == i)
unfolding addr
addr-eq base l i j = elim (Bool-cases (j == i)) [
  | inl e ↦ let same = ==→eq j i e in rw same (eq→== _ _ refl ∙ sym (eq→== i i refl))
  | inr ne ↦ rw ne (
      ne→== _ _ λ e.
        let times : i * level_to_size l ≡ j * level_to_size l = omega arith in
        let same : i ≡ j =
          sym (mul-div_cancel i (level_to_size-pos l))
          ∙ ap (λ t. t / level_to_size l) times
          ∙ mul-div_cancel j (level_to_size-pos l) in
        ground arith)
]

-- A block starts where its left half does.
pub addr-left : (base l i : ℕ) → addr base (suc l) i ≡ addr base l (i * 2)
unfolding addr
addr-left base l i = omega (arith, ap (λ (t : ℕ). i * t) (level_to_size-suc l))

module _ (b : Buddy) (v : IsBased b) (l p : ℕ) (h : l < levels) (k : p < pages) where
  pub index_to_node_lem : index_to_node b (shr p l) l ≡ addr b.arena_base l (shr p l)
  unfolding index_to_node addr
  index_to_node_lem =
      let fits = block_in_arena l p h k in
      let inner : wrap64 (shr p l * level_to_size l) ≡ shr p l * level_to_size l =
        mod-eq_of_lt (omega arith) in
      rw inner (mod-eq_of_lt (omega (arith, v.room)))

  pub addr_to_index_lem : addr_to_index b (addr b.arena_base l (shr p l)) l ≡ shr p l
  unfolding addr_to_index addr
  addr_to_index_lem =
      let fits = block_in_arena l p h k in
      let offset : sub64 (b.arena_base + shr p l * level_to_size l) b.arena_base
          ≡ shr p l * level_to_size l =
        omega (arith, v.room) in
      let index : shr p l * level_to_size l / level_to_size l ≡ shr p l =
        div-eq_of_eq-mul_left (level_to_size-pos l) refl in
      rw (offset, index) (mod-eq_of_lt (omega (arith, shr-le l p)))

-- A page of the sibling of the block of level `l` that holds `p`.
pub sibling_page : ℕ → ℕ → ℕ
sibling_page l p = if shr p l % 2 == 0 then p + 2 ^ l else p - 2 ^ l

pub sibling_page_lem :
    (l p : ℕ)
    → l < 6
    → p < pages
    → (sibling_page l p < pages)
      × (shr (sibling_page l p) l ≡ flip (shr p l))
      × (shr (sibling_page l p) (suc l) ≡ shr p (suc l))
unfolding shr flip sibling_page
sibling_page_lem zero p h k = ground arith
sibling_page_lem (suc zero) p h k = ground arith
sibling_page_lem (suc (suc zero)) p h k = ground arith
sibling_page_lem (suc (suc (suc zero))) p h k = ground arith
sibling_page_lem (suc (suc (suc (suc zero)))) p h k = ground arith
sibling_page_lem (suc (suc (suc (suc (suc zero))))) p h k = ground arith
sibling_page_lem (suc (suc (suc (suc (suc (suc l)))))) p h k = absurd (omega arith)

-- Two halves of one block.
pub flip-half : (i : ℕ) → flip i / 2 ≡ i / 2
unfolding flip
flip-half i = ground arith

pub flip-ne : (i : ℕ) → flip i ≢ i
unfolding flip
flip-ne i e = ground arith

pub half_cases : (i j : ℕ) → j / 2 ≡ i / 2 → (j ≡ i) ⊎ (j ≡ flip i)
unfolding flip
half_cases i j h = elim (Bool-cases (i % 2 == 0)) [
  | inl even ↦ elim (Bool-cases (j == i)) [
    | inl e ↦ inl (ground arith)
    | inr ne ↦ inr (ground arith)
  ]
  | inr odd ↦ elim (Bool-cases (j == i)) [
    | inl e ↦ inl (ground arith)
    | inr ne ↦ inr (ground arith)
  ]
]

-- Pages of the left and of the right half of the block of level `l + 1` that holds `p`.
pub left_page : ℕ → ℕ → ℕ
left_page l p = if shr p l % 2 == 0 then p else sibling_page l p

pub right_page : ℕ → ℕ → ℕ
right_page l p = if shr p l % 2 == 0 then sibling_page l p else p

module _ (l p : ℕ) (h : l < 6) (k : p < pages) where
  pub left_page_lem : (left_page l p < pages) × (shr (left_page l p) l ≡ shr p (suc l) * 2)
  unfolding left_page flip shr
  left_page_lem = let s = sibling_page_lem l p h k in ground arith

  pub right_page_lem : (right_page l p < pages) × (shr (right_page l p) l ≡ shr p (suc l) * 2 + 1)
  unfolding right_page flip shr
  right_page_lem = let s = sibling_page_lem l p h k in ground arith

-- The level of a request is the lowest one whose blocks hold it; a request above the largest block has
-- a level out of range.
pub size_to_level_fits :
    (size : ℕ)
    → size ≤ max_block
    → (size_to_level size < levels)
      × (size ≤ level_to_size (size_to_level size))
      × ((l : ℕ) → l < size_to_level size → level_to_size l < size)
unfolding size_to_level level_to_size
size_to_level_fits size h = elim (Bool-cases (leb size min_block)) [
  | inl small ↦ rw small (omega arith, ground arith, λ l hl. absurd (omega arith))
  | inr large ↦
      let range = msb_between 12 18 (size - 1) (ground arith) (omega arith) (omega arith) in
      let bounds = msb_bounds 64 (size - 1) (ground arith) (omega arith) in
      let level : (if ltb (msb 64 (size - 1) + 1) 12 then 0 else msb 64 (size - 1) + 1 - 12)
          ≡ msb 64 (size - 1) - 11 =
        ground (arith, range.0) in
      let top : 2 ^ (12 + (msb 64 (size - 1) - 11)) ≡ 2 ^ suc (msb 64 (size - 1)) =
        ap (λ e. 2 ^ e) (omega (arith, range.0)) in
      rw (large, level)
        (
          omega (arith, range.1),
          omega (arith, bounds.1, top),
          λ l hl. omega (arith, bounds.0, Mask.pow_mono (12 + l) (msb 64 (size - 1)) (omega arith)),
        )
]
