-- ===== src/CoreCache/Race/Steps.antt =====
-- Every step of every thread keeps the invariant, and what it means: nothing is popped twice or lost.
use v8malloc.Prelude.{
  ℕ, ◌+◌, ◌%◌, ◌^◌, ◌<◌, ◌≡◌, ◌≢◌, refl, sym, ap, ◌∙◌, inl, inr, Bool, true, false, ◌&&◌, Option,
  none, some, List, [], ◌∷◌, arith, ◌==◌, Bool-cases, ltb→lt, ==→eq, eq→==, update, update_self,
  update_ne, subst, if◌then◌else◌,
}
use v8malloc.Words.{wrap16}
use v8malloc.CoreCache.{tagptr_make, tagptr_ptr, tagptr_tag}
use v8malloc.CoreCache.Stack.{Segment, IsDistinct, Segment-small, tagptr_parts, tagptr_make-lt}
use v8malloc.CoreCache.Race.{
  Pc, idle, push_loaded, push_linked, pop_loaded, pop_read, World, push_win, pop_win, goto, advance,
  is_recent, is_idle, owned_by, below_top, Action, call_push, call_pop, go_on, use_object, act,
  start, Reach, begin, next,
}
use v8malloc.CoreCache.Race.Inv.{
  IsCopy, Holder, Knows, IsFree, IsStack, IsSound, held-IsAbsent, IsFree-update, write-IsStack,
  write-Knows, change-Knows, same-seen,
}

-- A family over the threads, after one of them has moved.
moved :
    (P : ℕ → Pc → Type 0) (pc : ℕ → Pc) (i : ℕ) (p : Pc)
    → P i p
    → ((k : ℕ) → k ≢ i → P k (pc k))
    → (k : ℕ) → P k (update pc i p k)
moved P pc i p mine others k = elim (Bool-cases (k == i)) [
  | inl t ↦
      (let e : i ≡ k = sym (==→eq k i t) in
        subst (λ j. P j (update pc i p j)) e (subst (P i) (sym (update_self pc i p)) mine))
  | inr f ↦
      (let ne : k ≢ i = λ e. ground (arith, eq→== k i e) in
        subst (P k) (sym (update_ne pc i p k ne)) (others k ne))
]

top_shape :
    (mem : ℕ → ℕ) (head : ℕ) (nodes : List ℕ)
    → 0 < head
    → Segment mem head nodes 0
    → (rest : List ℕ) × (nodes ≡ head ∷ rest)
top_shape mem head [] pos s = absurd (omega arith)
top_shape mem head (x ∷ rest) pos s = (rest, ap (λ y. y ∷ rest) (sym s.0))

module _ (w : World) (v : IsSound w) (i : ℕ) where
  goto-IsSound : (p : Pc) → Knows w.head w.mem w.changes w.owner i p → IsSound (goto w i p)
  goto-IsSound p k = record {
    stack = v.stack;
    threads = moved (Knows w.head w.mem w.changes w.owner) w.pc i p k (λ j _. v.threads j);
  }

  IsCopy-now : IsCopy w.head w.changes w.head w.changes
  IsCopy-now = record {
    past = omega arith;
    word = v.stack.word;
    tagged = v.stack.tagged;
    fresh = λ e. refl;
  }

  link-IsSound :
      (node old seen : ℕ)
      → Knows w.head w.mem w.changes w.owner i (push_loaded node old seen)
      → IsSound (record (goto w i (push_linked node old seen)) {
        mem = update w.mem node (tagptr_ptr old);
      })
  link-IsSound node old seen (n, held, copy) = record {
    stack =
        write-IsStack w.head w.mem w.changes w.pushed w.owner v.stack node (tagptr_ptr old) i held;
    threads =
        moved (Knows w.head (update w.mem node (tagptr_ptr old)) w.changes w.owner) w.pc i
          (push_linked node old seen) (n, held, copy, update_self w.mem node (tagptr_ptr old))
          (λ j d.
            write-Knows w.head w.mem w.changes w.pushed w.owner v.stack node (tagptr_ptr old) i held
              j (w.pc j) d (v.threads j));
  }

  -- The new word after a change.
  tag_next :
      (ptr old : ℕ)
      → ptr < 2 ^ 48
      → w.head ≡ old
      → let h = tagptr_make ptr (wrap16 (tagptr_tag old + 1)) in
        (h < 2 ^ 64) × (tagptr_ptr h ≡ ptr) × (tagptr_tag h ≡ (w.changes + 1) % 2 ^ 16)
  tag_next ptr old small e =
      let tag = wrap16 (tagptr_tag old + 1) in
      let (p, t) = tagptr_parts ptr tag small (omega arith) in
      let same : tagptr_tag w.head ≡ tagptr_tag old = ap tagptr_tag e in
      (tagptr_make-lt ptr tag, p, omega (arith, t, v.stack.tagged))

  push_win-IsSound :
      (node old seen : ℕ)
      → Knows w.head w.mem w.changes w.owner i (push_linked node old seen)
      → w.head ≡ old
      → IsSound (push_win w i node old)
  unfolding push_win
  push_win-IsSound node old seen (n, held, copy, linked) e =
      let h = tagptr_make node (wrap16 (tagptr_tag old + 1)) in
      let (word, ptr, tagged) = tag_next node old n.1 e in
      let s = v.stack in
      let absent = held-IsAbsent w.owner node i w.pushed held s.free in
      let same : w.mem node ≡ tagptr_ptr w.head = linked ∙ ap tagptr_ptr (sym e) in
      record {
        stack = record {
          word = word;
          tagged = tagged;
          chain = (ptr, n, subst (λ a. Segment w.mem a w.pushed 0) (sym same) s.chain);
          distinct = (absent, s.distinct);
          free = (
            update_self w.owner node none,
            IsFree-update w.owner node none w.pushed absent s.free,
          );
        };
        threads =
            moved (Knows h w.mem (w.changes + 1) (update w.owner node none)) w.pc i idle tt (λ j d.
              change-Knows w.head h w.mem w.changes w.owner node none j (w.pc j)
                (λ q. let g : some i ≡ some j = sym held ∙ q in d (cc)) (v.threads j));
      }

  -- In time, with the head as it was read, the link that was read is the present one.
  pub top_of :
      (old link seen : ℕ)
      → Knows w.head w.mem w.changes w.owner i (pop_read old link seen)
      → w.changes < seen + 2 ^ 16
      → w.head ≡ old
      → (rest : List ℕ) × (w.pushed ≡ tagptr_ptr old ∷ rest) × (link ≡ w.mem (tagptr_ptr old))
  top_of old link seen (copy, pos, read) recent e =
      let now = same-seen w.head w.changes old seen v.stack.tagged copy recent e in
      let at_head : 0 < tagptr_ptr w.head = let g = ap tagptr_ptr e in omega arith in
      let (rest, shape) = top_shape w.mem (tagptr_ptr w.head) w.pushed at_head v.stack.chain in
      (rest, shape ∙ ap (λ x. x ∷ rest) (ap tagptr_ptr e), read now)

  pop_win-IsSound :
      (old link seen : ℕ)
      → Knows w.head w.mem w.changes w.owner i (pop_read old link seen)
      → w.changes < seen + 2 ^ 16
      → w.head ≡ old
      → IsSound (pop_win w i old link)
  unfolding pop_win
  pop_win-IsSound old link seen k recent e =
      let (rest, shape, read) = top_of old link seen k recent e in
      let a = tagptr_ptr old in
      let h = tagptr_make link (wrap16 (tagptr_tag old + 1)) in
      let chain = subst (λ l. Segment w.mem (tagptr_ptr w.head) l 0) shape v.stack.chain in
      let distinct = subst IsDistinct shape v.stack.distinct in
      let free = subst (IsFree w.owner) shape v.stack.free in
      let below : Segment w.mem link rest 0 =
        subst (λ x. Segment w.mem x rest 0) (sym read) chain.2 in
      let (word, ptr, tagged) = tag_next link old (Segment-small w.mem link rest below) e in
      let left : IsStack h w.mem (w.changes + 1) rest (update w.owner a (some i)) = record {
        word = word;
        tagged = tagged;
        chain = rw ptr below;
        distinct = distinct.1;
        free = IsFree-update w.owner a (some i) rest distinct.0 free.1;
      } in
      record {
        stack =
            subst (λ l. IsStack h w.mem (w.changes + 1) (below_top l) (update w.owner a (some i)))
              (sym shape) left;
        threads =
            moved (Knows h w.mem (w.changes + 1) (update w.owner a (some i))) w.pc i idle tt (λ j d.
              change-Knows w.head h w.mem w.changes w.owner a (some i) j (w.pc j)
                (λ q. let g : some j ≡ none = sym q ∙ free.0 in cc) (v.threads j));
      }

  and-right : (a b : Bool) → (a && b) ≡ true → b ≡ true
  and-right a b h = ground arith

  advance-IsSound :
      (win : Bool) (p : Pc)
      → Knows w.head w.mem w.changes w.owner i p
      → is_recent w.changes p ≡ true
      → IsSound (advance w i win p)
  unfolding advance
  advance-IsSound win idle k r = v
  advance-IsSound win (push_loaded node old seen) k r = link-IsSound node old seen k
  advance-IsSound win (push_linked node old seen) k r = elim (Bool-cases (win && (w.head == old))) [
    | inl t ↦ rw t (push_win-IsSound node old seen k (==→eq _ _ (and-right win (w.head == old) t)))
    | inr f ↦ rw f (goto-IsSound (push_loaded node w.head w.changes) (k.0, k.1, IsCopy-now))
  ]
  advance-IsSound win (pop_loaded old seen) k r = elim (Bool-cases (tagptr_ptr old == 0)) [
    | inl t ↦ rw t (goto-IsSound idle tt)
    | inr f ↦
        rw f
          (goto-IsSound (pop_read old (w.mem (tagptr_ptr old)) seen) (k, ground arith, λ e. refl))
  ]
  advance-IsSound win (pop_read old link seen) k r = elim (Bool-cases (win && (w.head == old))) [
    | inl t ↦ rw t (
        pop_win-IsSound old link seen k (ltb→lt _ _ r)
          (==→eq _ _ (and-right win (w.head == old) t)))
    | inr f ↦ rw f (goto-IsSound (pop_loaded w.head w.changes) IsCopy-now)
  ]

  use-IsSound :
      (node value : ℕ)
      → w.pc i ≡ idle
      → w.owner node ≡ some i
      → IsSound (record w { mem = update w.mem node value })
  use-IsSound node value quiet held = record {
    stack = write-IsStack w.head w.mem w.changes w.pushed w.owner v.stack node value i held;
    threads = λ j. elim (Bool-cases (j == i)) [
      | inl t ↦
          subst (Knows w.head (update w.mem node value) w.changes w.owner j)
            (sym (ap w.pc (==→eq j i t) ∙ quiet)) tt
      | inr f ↦
          write-Knows w.head w.mem w.changes w.pushed w.owner v.stack node value i held j (w.pc j)
            (λ e. ground (arith, eq→== j i e)) (v.threads j)
    ];
  }

owned_lem : (o : Option ℕ) (i : ℕ) → owned_by o i ≡ true → o ≡ some i
owned_lem none i h = cc
owned_lem (some j) i h = ground arith

idle_lem : (p : Pc) → is_idle p ≡ true → p ≡ idle
idle_lem idle h = refl
idle_lem (push_loaded node old seen) h = cc
idle_lem (push_linked node old seen) h = cc
idle_lem (pop_loaded old seen) h = cc
idle_lem (pop_read old link seen) h = cc

some_of {ℓ} :
    {A : Type ℓ} (b : Bool) (x y : A) → (if b then some x else none) ≡ some y → (b ≡ true) × (x ≡ y)
some_of true x y h = (refl, cc)
some_of false x y h = cc

-- Every possible action keeps the invariant.
pub act-IsSound :
    (w : World) → IsSound w → (a : Action) (w' : World) → act w a ≡ some w' → IsSound w'
unfolding act
act-IsSound w v (call_push i node) w' e =
    let (t, q) = some_of _ _ w' e in
    let held = owned_lem (w.owner node) i (ground arith) in
    subst IsSound q (
      goto-IsSound w v i (push_loaded node w.head w.changes)
        ((ground arith, ground arith), held, IsCopy-now w v i))
act-IsSound w v (call_pop i) w' e =
    let (t, q) = some_of _ _ w' e in
    subst IsSound q (goto-IsSound w v i (pop_loaded w.head w.changes) (IsCopy-now w v i))
act-IsSound w v (go_on i win) w' e =
    let (t, q) = some_of _ _ w' e in
    subst IsSound q (advance-IsSound w v i win (w.pc i) (v.threads i) t)
act-IsSound w v (use_object i node value) w' e =
    let (t, q) = some_of _ _ w' e in
    subst IsSound q (
      use-IsSound w v i node value (idle_lem (w.pc i) (ground arith))
        (owned_lem (w.owner node) i (ground arith)))

start-IsSound : (owner : Holder) (mem : ℕ → ℕ) → IsSound (start owner mem)
unfolding start tagptr_ptr tagptr_tag
start-IsSound owner mem = record {
  stack = record { word = omega arith; tagged = refl; chain = refl; distinct = tt; free = tt };
  threads = λ i. tt;
}

-- Whatever the threads do, if no compare-exchange comes 2^16 changes or more after its load: the links
-- from the head visit exactly the nodes that were pushed and not popped, top first, each once, and no
-- thread holds one of them.
pub Reach-IsSound : (owner : Holder) (mem : ℕ → ℕ) (w : World) → Reach owner mem w → IsSound w
Reach-IsSound owner mem w begin = start-IsSound owner mem
Reach-IsSound owner mem w (next {w = u} r a e) = act-IsSound u (Reach-IsSound owner mem u r) a w e
