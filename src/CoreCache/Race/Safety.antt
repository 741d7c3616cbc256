-- ===== src/CoreCache/Race/Safety.antt =====
-- What the callers of a racing stack rely on.
use v8malloc.Prelude.{
  ℕ, ◌+◌, ◌^◌, ◌<◌, ◌≡◌, refl, sym, ap, ◌∙◌, true, none, some, ◌∷◌, arith, ltb, ◌==◌, eq→==,
  update_self, subst,
}
use v8malloc.CoreCache.{tagptr_ptr}
use v8malloc.CoreCache.Race.{Pc, pop_read, World, pop_win, advance, below_top, go_on, act, Reach}
use v8malloc.CoreCache.Race.Inv.{Holder, Knows, IsFree, IsSound}
use v8malloc.CoreCache.Race.Steps.{Reach-IsSound, top_of}

Knows-at :
    (w : World) (v : IsSound w) (i : ℕ) (p : Pc)
    → w.pc i ≡ p
    → Knows w.head w.mem w.changes w.owner i p
Knows-at w v i p e = subst (Knows w.head w.mem w.changes w.owner i) e (v.threads i)

-- A pop whose compare-exchange succeeds takes the node that was pushed last, which nobody held, and
-- its thread holds the node from then on.
pub pop_wins_top :
    (owner : Holder) (mem : ℕ → ℕ) (w : World) (i old link seen : ℕ)
    → Reach owner mem w
    → w.pc i ≡ pop_read old link seen
    → w.changes < seen + 2 ^ 16
    → w.head ≡ old
    → (w' : World) × (act w (go_on i true) ≡ some w')
      × (w.pushed ≡ tagptr_ptr old ∷ w'.pushed)
      × (w.owner (tagptr_ptr old) ≡ none)
      × (w'.owner (tagptr_ptr old) ≡ some i)
unfolding act advance pop_win
pop_wins_top owner mem w i old link seen r at recent won =
    let v = Reach-IsSound owner mem w r in
    let (rest, shape, read) = top_of w v i old link seen (Knows-at w v i _ at) recent won in
    let same : (w.head == old) ≡ true = eq→== _ _ won in
    let in_time : ltb w.changes (seen + 2 ^ 16) ≡ true = ground arith in
    (
      pop_win w i old link,
      rw (at, in_time, same) refl,
      shape ∙ ap (λ l. tagptr_ptr old ∷ below_top l) (sym shape),
      (subst (IsFree w.owner) shape v.stack.free).0,
      update_self w.owner (tagptr_ptr old) (some i),
    )
