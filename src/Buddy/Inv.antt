-- ===== src/Buddy/Inv.antt =====
-- The invariant of an arena: the blocks on the free lists, the allocated blocks and those that an
-- operation holds tile the arena, under the split bits.
use v8malloc.Prelude.{
  ℕ, ◌+◌, ◌<◌, ◌≡◌, sym, ◌∙◌, inl, inr, Bool, List, [], ◌∷◌, arith, ◌==◌, if◌then◌else◌, Bool-cases,
  subst, ==→eq,
}
use v8malloc.Words.{test_bit}
use v8malloc.Buddy.{update, Buddy, levels}
use v8malloc.Buddy.Geometry.{pages, shr, addr, addr-eq, IsBased}
use v8malloc.Buddy.Count.{count}
use v8malloc.Buddy.Tiling.{IsTiling}
use v8malloc.Buddy.Tiling.Sums.{sum-exchange}

-- 1 where the bit is set.
abbrev pub bit : ℕ → ℕ → ℕ
bit n j = if test_bit n j then 1 else 0

-- How often the block `j` of level `l` is listed as free, allocated or carried.
abbrev pub held : Buddy → (ℕ → ℕ → ℕ) → ℕ → ℕ → ℕ
held b carried l j =
    count (addr b.arena_base l j) (b.free_lists l) + bit (b.alloc_bitmap l) j + carried l j

abbrev pub split_bit : Buddy → ℕ → ℕ → Bool
split_bit b l j = test_bit (b.split_bitmap l) j

-- An operation carries no block.
abbrev pub nothing : ℕ → ℕ → ℕ
nothing l j = 0

-- Each address is that of a block of the arena.
abbrev pub AllBlocks : ℕ → ℕ → List ℕ → Type 0
AllBlocks base l [] = Unit {0}
AllBlocks base l (a ∷ rest) =
    ((p : ℕ) × (p < pages) × (a ≡ addr base l (shr p l))) × AllBlocks base l rest

pub record IsArena (b : Buddy) (carried : ℕ → ℕ → ℕ) : Type 0 where
  pub place : IsBased b
  pub tiled : IsTiling (held b carried) (split_bit b)
  pub blocks : (l : ℕ) → l < levels → AllBlocks b.arena_base l (b.free_lists l)

-- A tiling depends on the values of its two functions alone.
pub IsTiling-eq :
    (h h' : ℕ → ℕ → ℕ) (s s' : ℕ → ℕ → Bool)
    → IsTiling h s
    → ((l j : ℕ) → l < levels → h' l j ≡ h l j)
    → ((l j : ℕ) → s' l j ≡ s l j)
    → IsTiling h' s'
IsTiling-eq h h' s s' t eh es = record {
  once = λ p hp. omega (
    arith,
    t.once p hp,
    sum-exchange levels (λ l. h' l (shr p l)) (λ l. h l (shr p l)) (λ l. 0) (λ l. 0)
        (λ l hl. omega (arith, eh l (shr p l) hl)),
  );
  parent = λ l p hl hp o. es _ _ ∙ t.parent l p hl hp (omega (arith, eh l (shr p l) (omega arith)));
  nested = λ l p hl hp o. es _ _ ∙ t.nested l p hl hp (sym (es _ _) ∙ o);
  leaf = λ l p hl hp o. es _ _ ∙ t.leaf l p hl hp (omega (arith, eh l (shr p l) hl));
}

pub count-cons_addr :
    (base l i j : ℕ) (xs : List ℕ)
    → count (addr base l j) (addr base l i ∷ xs)
      ≡ count (addr base l j) xs + (if j == i then 1 else 0)
unfolding count
count-cons_addr base l i j xs = ground (arith, addr-eq base l i j)

pub AllBlocks-update :
    (base : ℕ) (lists : ℕ → List ℕ) (l : ℕ) (xs : List ℕ)
    → AllBlocks base l xs
    → ((m : ℕ) → m < levels → AllBlocks base m (lists m))
    → (m : ℕ) → m < levels
    → AllBlocks base m (update lists l xs m)
unfolding update
AllBlocks-update base lists l xs h all m hm = elim (Bool-cases (m == l)) [
  | inl t ↦ rw t (subst (λ x. AllBlocks base x xs) (sym (==→eq m l t)) h)
  | inr f ↦ rw f (all m hm)
]
