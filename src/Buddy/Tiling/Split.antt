-- ===== src/Buddy/Tiling/Split.antt =====
-- Splitting a held block into its two halves keeps a tiling.
use v8malloc.Prelude.{
  ℕ, suc, ◌+◌, ◌/◌, ◌<◌, ◌≡◌, Bool, true, false, ◌&&◌, ◌||◌, arith, ◌==◌, if◌then◌else◌,
}
use v8malloc.Buddy.{levels}
use v8malloc.Buddy.Geometry.{shr, pages}
use v8malloc.Buddy.Tiling.{IsTiling, at, halves, held-le_one}
use v8malloc.Buddy.Tiling.Sums.{sum, sum-exchange, sum-at}

module _ (held held' : ℕ → ℕ → ℕ) (split split' : ℕ → ℕ → Bool) (t : IsTiling held split) (l p : ℕ)
    (h : l < 6) (k : p < pages) (own : 0 < held (suc l) (shr p (suc l)))
    (new_held : (m j : ℕ)
      → m < levels
      → held' m j + at (suc l) (shr p (suc l)) m j ≡ held m j + halves l (shr p (suc l)) m j)
    (new_split : (m j : ℕ) → split' m j ≡ (split m j || (m == suc l && j == shr p (suc l)))) where
  once : (r : ℕ) → r < pages → sum levels (λ m. held' m (shr r m)) ≡ 1
  unfolding shr
  once r hr =
      let i = shr p (suc l) in
      omega (
        arith,
        t.once r hr,
        sum-exchange levels (λ m. held' m (shr r m)) (λ m. held m (shr r m))
            (λ m. at (suc l) i m (shr r m)) (λ m. halves l i m (shr r m))
            (λ m hm. new_held m (shr r m) hm),
        sum-at levels (suc l) (λ m. if shr r m == i then 1 else 0) (omega arith),
        sum-at levels l (λ m. if shr r m / 2 == i then 1 else 0) (omega arith),
      )

  parent :
      (m r : ℕ) → m < 6 → r < pages → 0 < held' m (shr r m) → split' (suc m) (shr r (suc m)) ≡ true
  unfolding shr
  parent m r hm hr o =
      ground (arith, new_held m (shr r m), new_split (suc m) (shr r (suc m)), t.parent m r)

  nested :
      (m r : ℕ)
      → m < 6
      → r < pages
      → split' m (shr r m) ≡ true
      → split' (suc m) (shr r (suc m)) ≡ true
  unfolding shr
  nested m r hm hr o = ground (
    arith,
    new_split m (shr r m),
    new_split (suc m) (shr r (suc m)),
    t.nested m r,
    t.parent (suc l) p,
  )

  leaf : (m r : ℕ) → m < levels → r < pages → 0 < held' m (shr r m) → split' m (shr r m) ≡ false
  unfolding shr
  leaf m r hm hr o = ground (
    arith,
    new_held m (shr r m),
    new_split m (shr r m),
    t.leaf m r,
    t.leaf (suc l) p,
    t.nested l r,
    held-le_one t r m hr hm,
  )

  pub split-IsTiling : IsTiling held' split'
  split-IsTiling = record { once = once; parent = parent; nested = nested; leaf = leaf }
