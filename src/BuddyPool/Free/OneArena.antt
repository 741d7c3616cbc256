-- ===== src/BuddyPool/Free/OneArena.antt =====
-- A free in its arena: the two kinds of free leave the other blocks and the invariant.
use v8malloc.Prelude.{
  ℕ, zero, suc, ◌+◌, ◌≤◌, ◌<◌, ◌≡◌, ◌≢◌, refl, sym, ap, ◌∙◌, inl, inr, Bool, true, false, not, ◌&&◌,
  arith, ◌==◌, if◌then◌else◌, Bool-cases, ==→eq, eq→==, subst,
}
use v8malloc.Words.{test_bit, msb}
use v8malloc.Buddy.{Buddy, levels, max_block, is_empty, empty_from, size_to_level, level_to_size}
use v8malloc.Buddy
use v8malloc.Words.Bits.{test_bit-zero}
use v8malloc.Buddy.Geometry.{addr, addr-eq, shr}
use v8malloc.Buddy.Inv.{IsArena, nothing}
use v8malloc.Buddy.Base.{free-base}
use v8malloc.Buddy.Query.{block_size_lem}
use v8malloc.Buddy.Free.{frees_allocated_block}
use v8malloc.Buddy.Coalesce.Sweep.{free_no_coalesce_lem}
use v8malloc.Buddy.Reach.{Block, IsOwned}

-- The block sizes are those of the levels.
level_lem : (l : ℕ) → l < levels → size_to_level (level_to_size l) ≡ l
unfolding size_to_level level_to_size msb
level_lem zero h = refl
level_lem (suc zero) h = refl
level_lem (suc (suc zero)) h = refl
level_lem (suc (suc (suc zero))) h = refl
level_lem (suc (suc (suc (suc zero)))) h = refl
level_lem (suc (suc (suc (suc (suc zero))))) h = refl
level_lem (suc (suc (suc (suc (suc (suc zero)))))) h = refl
level_lem (suc (suc (suc (suc (suc (suc (suc l))))))) h = absurd (omega arith)

-- The two kinds of free.
abbrev pub freed : Buddy → Block → Bool → Buddy
freed b x deferred =
    if deferred
    then Buddy.free_no_coalesce b x.address (Buddy.block_size b x.address)
    else Buddy.free b x.address (Buddy.block_size b x.address)

-- What a free leaves of an arena, with and without coalescing.
abbrev pub Left : Buddy → Block → Buddy → Type 0
Left b x c =
    IsArena c nothing
    × (c.arena_base ≡ b.arena_base)
    × ((y : Block) → x.address ≢ y.address → IsOwned b y → IsOwned c y)
    × ((y : Block) → IsOwned c y → (x.address ≢ y.address) × IsOwned b y)

cleared_below :
    (k : ℕ) (b : Buddy) (level m : ℕ)
    → empty_from k b level ≡ true
    → level ≤ m
    → m < level + k
    → b.alloc_bitmap m ≡ 0
unfolding empty_from
cleared_below zero b level m e lo hi = absurd (omega arith)
cleared_below (suc k) b level m e lo hi = elim (Bool-cases (m == level)) [
  | inl t ↦ subst (λ l. b.alloc_bitmap l ≡ 0) (sym (==→eq m level t)) (ground arith)
  | inr f ↦ cleared_below k b (suc level) m (ground arith) (ground arith) (omega arith)
]

pub clash : true ≡ false → ⊥
clash e = cc

-- An arena with an allocated block is not empty, and so it is not drained.
pub owned_live : (b : Buddy) (x : Block) → IsOwned b x → is_empty b ≡ false
unfolding is_empty
owned_live b x o = elim (Bool-cases (empty_from levels b 0)) [
  | inr f ↦ f
  | inl t ↦
      (let zero_bits = cleared_below levels b 0 (size_to_level x.size) t (omega arith) o.level in
        let bit = o.marked in
        let unset = test_bit-zero (shr o.page (size_to_level x.size)) in
        absurd (
          clash
            (sym bit ∙ ap (λ n. test_bit n (shr o.page (size_to_level x.size))) zero_bits ∙ unset)))
]

size_of :
    (b : Buddy) (x : Block)
    → IsArena b nothing
    → IsOwned b x
    → Buddy.block_size b x.address ≡ level_to_size (size_to_level x.size)
size_of b x a o =
    subst (λ p. Buddy.block_size b p ≡ level_to_size (size_to_level x.size)) (sym o.place)
      (block_size_lem b a (size_to_level x.size) o.page o.level o.inside o.marked)

module _ (b : Buddy) (x : Block) (a : IsArena b nothing) (o : IsOwned b x) where
  abbrev level : ℕ
  level = size_to_level x.size

  pub size_lem : Buddy.block_size b x.address ≡ level_to_size level
  size_lem = size_of b x a o

  -- Clearing the bit of the block leaves the blocks at other addresses.
  cleared-IsOwned :
      (c : Buddy) (y : Block)
      → c.arena_base ≡ b.arena_base
      → ((l j : ℕ)
          → test_bit (c.alloc_bitmap l) j
            ≡ (test_bit (b.alloc_bitmap l) j && not (l == level && j == shr o.page level)))
      → x.address ≢ y.address
      → IsOwned b y
      → IsOwned c y
  cleared-IsOwned c y base bits ne k =
      let m = size_to_level y.size in
      let differ : (m == level && shr k.page m == shr o.page level) ≡ false =
        elim (Bool-cases (m == level && shr k.page m == shr o.page level)) [
          | inr f ↦ f
          | inl t ↦
              (let same : m ≡ level = ground arith in
                let index : shr k.page m ≡ shr o.page level = ground arith in
                absurd (
                  ne (
                    o.place
                    ∙ sym (
                        k.place
                        ∙ ap (λ n. addr b.arena_base n (shr k.page m)) same
                        ∙ ap (addr b.arena_base level) index))))
        ] in
      let old = k.marked in
      record {
        page = k.page;
        inside = k.inside;
        level = k.level;
        fits = k.fits;
        place = rw base k.place;
        marked = bits m (shr k.page m) ∙ rw (old, differ) refl;
      }

  -- A block that is allocated after the bit is cleared was allocated before, at another address.
  of_cleared :
      (c : Buddy) (y : Block)
      → c.arena_base ≡ b.arena_base
      → ((l j : ℕ)
          → test_bit (c.alloc_bitmap l) j
            ≡ (test_bit (b.alloc_bitmap l) j && not (l == level && j == shr o.page level)))
      → IsOwned c y
      → (x.address ≢ y.address) × IsOwned b y
  of_cleared c y base bits k =
      let m = size_to_level y.size in
      let both = sym (bits m (shr k.page m)) ∙ k.marked in
      let old : IsOwned b y = record {
        page = k.page;
        inside = k.inside;
        level = k.level;
        fits = k.fits;
        place = rw (sym base) k.place;
        marked = ground arith;
      } in
      let other : x.address ≢ y.address = λ e.
        let sizes : level_to_size m ≡ level_to_size level =
          sym (size_of b y a old) ∙ ap (Buddy.block_size b) (sym e) ∙ size_lem in
        let same : m ≡ level =
          sym (level_lem m k.level) ∙ ap size_to_level sizes ∙ level_lem level o.level in
        let places : addr b.arena_base level (shr o.page level)
            ≡ addr b.arena_base level (shr k.page m) =
          sym o.place ∙ e ∙ old.place ∙ ap (λ n. addr b.arena_base n (shr k.page m)) same in
        let index : (shr k.page m == shr o.page level) ≡ true =
          sym (addr-eq b.arena_base level (shr o.page level) (shr k.page m)) ∙ eq→== _ _ places in
        let there : (m == level) ≡ true = eq→== _ _ same in ground arith in
      (other, old)

  same_level : size_to_level (level_to_size level) ≡ level
  same_level = level_lem level o.level

  bit_at :
      test_bit
        (b.alloc_bitmap (size_to_level (level_to_size level)))
        (shr o.page (size_to_level (level_to_size level)))
      ≡ true
  bit_at = subst (λ l. test_bit (b.alloc_bitmap l) (shr o.page l) ≡ true) (sym same_level) o.marked

  in_range : size_to_level (level_to_size level) < levels
  in_range = omega (arith, same_level, o.level)

  -- What the two kinds of free give, at the level `l` of the size that they are called with.
  abbrev Cleared : (ℕ → Buddy) → ℕ → Type 0
  Cleared f l =
      let c = f (addr b.arena_base l (shr o.page l)) in
      IsArena c nothing
      × ((m j : ℕ)
          → test_bit (c.alloc_bitmap m) j
            ≡ (test_bit (b.alloc_bitmap m) j && not (m == l && j == shr o.page l)))
      × (c.arena_base ≡ b.arena_base)

  Cleared-Left :
      (f : ℕ → Buddy) → Cleared f (size_to_level (level_to_size level)) → Left b x (f x.address)
  Cleared-Left f d =
      let (arena, bits, base) = subst (Cleared f) same_level d in
      subst (λ p. Left b x (f p)) (sym o.place)
        (
          arena,
          base,
          λ y ne k.
              cleared-IsOwned (f (addr b.arena_base level (shr o.page level))) y base bits ne k,
          λ y k. of_cleared (f (addr b.arena_base level (shr o.page level))) y base bits k,
        )

  pub freed-Left : (deferred : Bool) → Left b x (freed b x deferred)
  freed-Left true = rw size_lem (
      Cleared-Left (λ p. Buddy.free_no_coalesce b p (level_to_size level))
        (free_no_coalesce_lem b (level_to_size level) o.page a in_range o.inside bit_at))
  freed-Left false =
      let d = frees_allocated_block b (level_to_size level) o.page a in_range o.inside bit_at in
      rw size_lem (
        Cleared-Left (λ p. Buddy.free b p (level_to_size level))
          (d.0, d.1, free-base b _ (level_to_size level)))
