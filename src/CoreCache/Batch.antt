-- ===== src/CoreCache/Batch.antt =====
-- Whole chains: a batch is pushed in one step, and popped node by node into a new chain.
use v8malloc.Prelude.{
  ℕ, zero, suc, ◌+◌, ◌^◌, ◌<◌, ◌≡◌, ◌≢◌, refl, sym, true, false, List, [], ◌∷◌, ◌++◌, some, arith,
  ltb, leb, ◌==◌, ne→==, update, update_self, length, length-append, take, drop, subst,
}
use mathlib.Core.List.{append_assoc}
use v8malloc.SizeClass.{num_size_classes}
use v8malloc.CoreCache.{
  State, Popped, tagptr_ptr, tagptr_tag, link_chain, push_batch, publish_donor, pop, append_node,
  pop_loop, terminate, pop_batch,
}
use v8malloc.CoreCache.Stack.{
  IsNode, Segment, IsAbsent, IsDistinct, Holds, Segment-update, make_ptr, pop-Holds, pop-empty,
}

abbrev pub last_of : ℕ → List ℕ → ℕ
last_of x [] = x
last_of x (y ∷ rest) = last_of y rest

Segment-append :
    (mem : ℕ → ℕ) (head mid last : ℕ) (xs ys : List ℕ)
    → Segment mem head xs mid
    → Segment mem mid ys last
    → Segment mem head (xs ++ ys) last
Segment-append mem head mid last [] ys s t = rw s t
Segment-append mem head mid last (x ∷ xs) ys s t =
    (s.0, s.1, Segment-append mem (mem x) mid last xs ys s.2 t)

-- The front of a chain and its last node, whose link is written.
Segment-extend :
    (mem : ℕ → ℕ) (head tail v : ℕ) (front : List ℕ)
    → IsNode tail
    → IsAbsent tail front
    → Segment mem head front tail
    → Segment (update mem tail v) head (front ++ tail ∷ []) v
Segment-extend mem head tail v front n absent s =
    Segment-append (update mem tail v) head tail v front (tail ∷ [])
      (Segment-update mem tail v head tail front absent s) (refl, n, update_self mem tail v)

IsDistinct-middle :
    (front : List ℕ) (tail : ℕ) (nodes : List ℕ)
    → IsDistinct (front ++ tail ∷ nodes)
    → IsAbsent tail front × IsAbsent tail nodes × IsDistinct nodes
IsDistinct-middle [] tail nodes d = (tt, d.0, d.1)
IsDistinct-middle (x ∷ front) tail nodes d =
    let (a, b, c) = IsDistinct-middle front tail nodes d.1 in
    ((λ e. absent_middle front d.0 (sym e), a), b, c)
  where
    absent_middle : (front : List ℕ) → IsAbsent x (front ++ tail ∷ nodes) → tail ≢ x
    absent_middle [] h = h.0
    absent_middle (y ∷ front) h = absent_middle front h.1

-- What the loop has done when it ends: the chain is closed by NULL, and the rest is on the stack.
pub record IsTaken (cpu cls : ℕ) (st : State) (c : Popped) (chain rest : List ℕ) (last : ℕ)
    : Type 0 where
  pub linked : Segment st.mem c.chain_head chain 0
  pub counted : c.count ≡ length chain
  pub ended : c.chain_tail ≡ last
  pub left : Holds st cpu cls rest

abbrev Outcome : ℕ → ℕ → State × Popped → List ℕ → List ℕ → ℕ → Type 0
Outcome cpu cls r chain rest last = IsTaken cpu cls (terminate r.0 r.1) r.1 chain rest last

-- A chain that is not empty: its links visit the front and reach the last node.
record IsOpen (st : State) (c : Popped) (front : List ℕ) (tail : ℕ) : Type 0 where
  pub node : IsNode tail
  pub ended : c.chain_tail ≡ tail
  pub linked : Segment st.mem c.chain_head front tail
  pub counted : c.count ≡ length front + 1

head_pos :
    (mem : ℕ → ℕ) (head tail : ℕ) (front : List ℕ)
    → IsNode tail
    → Segment mem head front tail
    → 0 < head
head_pos mem head tail [] n s = omega (arith, s, n.0)
head_pos mem head tail (x ∷ front) n s = omega (arith, s.0, s.1.0)

head-lt :
    (mem : ℕ → ℕ) (head tail : ℕ) (front : List ℕ)
    → IsNode tail
    → Segment mem head front tail
    → head < 2 ^ 48
head-lt mem head tail [] n s = omega (arith, s, n.1)
head-lt mem head tail (x ∷ front) n s = omega (arith, s.0, s.1.1)

module _ (cpu cls : ℕ) (h : cls < num_size_classes) where
  stop :
      (st : State) (c : Popped) (front : List ℕ) (tail : ℕ) (nodes : List ℕ)
      → IsOpen st c front tail
      → Holds st cpu cls nodes
      → IsDistinct (front ++ tail ∷ nodes)
      → Outcome cpu cls (st, c) (front ++ tail ∷ []) nodes tail
  unfolding terminate
  stop st c front tail nodes o s d =
      let (before, after, _) = IsDistinct-middle front tail nodes d in
      let some_taken : ltb 0 c.count ≡ true = let k = o.counted in ground arith in
      rw (some_taken, o.ended)
        (record {
          linked = Segment-extend st.mem c.chain_head tail 0 front o.node before o.linked;
          counted = omega (arith, o.counted, length-append {0} front (tail ∷ []));
          ended = refl;
          left = record {
            chain = Segment-update st.mem tail 0 _ 0 nodes after s.chain;
            distinct = s.distinct;
          };
        })

  append-IsOpen :
      (st : State) (c : Popped) (front : List ℕ) (tail x : ℕ) (nodes : List ℕ)
      → IsOpen st c front tail
      → Holds st cpu cls nodes
      → IsNode x
      → IsDistinct (front ++ tail ∷ x ∷ nodes)
      → IsOpen ((append_node st c x).0) ((append_node st c x).1) (front ++ tail ∷ []) x
        × Holds ((append_node st c x).0) cpu cls nodes
  unfolding append_node
  append-IsOpen st c front tail x nodes o s n d =
      let (before, after, _) = IsDistinct-middle front tail (x ∷ nodes) d in
      let begun : (c.chain_head == 0) ≡ false =
        ne→== _ _ (λ z. omega (arith, head_pos st.mem c.chain_head tail front o.node o.linked)) in
      rw (begun, o.ended)
        (
          record {
            node = n;
            ended = refl;
            linked = Segment-extend st.mem c.chain_head tail x front o.node before o.linked;
            counted = omega (arith, o.counted, length-append {0} front (tail ∷ []));
          },
          record {
            chain = Segment-update st.mem tail x _ 0 nodes after.1 s.chain;
            distinct = s.distinct;
          },
        )

  loop_lem :
      (rounds : ℕ) (st : State) (c : Popped) (front : List ℕ) (tail : ℕ) (nodes : List ℕ)
      → IsOpen st c front tail
      → Holds st cpu cls nodes
      → IsDistinct (front ++ tail ∷ nodes)
      → Outcome cpu cls
          (pop_loop rounds st cpu cls c)
          (front ++ tail ∷ take rounds nodes)
          (drop rounds nodes)
          (last_of tail (take rounds nodes))
  unfolding pop_loop
  loop_lem zero st c front tail nodes o s d = stop st c front tail nodes o s d
  loop_lem (suc rounds) st c front tail [] o s d =
      rw (pop-empty st cpu cls s) (stop st c front tail [] o s d)
  loop_lem (suc rounds) st c front tail (x ∷ nodes) o s d =
      let st' = (pop st (some cpu) cls).0 in
      let p = pop-Holds st cpu cls x nodes h s in
      let n = s.chain.1 in
      let more : (x == 0) ≡ false = ne→== _ _ (λ z. omega (arith, n.0)) in
      let same : IsOpen st' c front tail = record {
        node = o.node;
        ended = o.ended;
        linked = rw p.2 o.linked;
        counted = o.counted;
      } in
      let (open', left) = append-IsOpen st' c front tail x nodes same p.1 n d in
      let regroup = append_assoc front (tail ∷ []) in
      let rest =
        loop_lem rounds ((append_node st' c x).0) ((append_node st' c x).1) (front ++ tail ∷ []) x
          nodes open' left (rw (regroup (x ∷ nodes)) d) in
      rw (p.0, more) (rw (regroup (x ∷ take rounds nodes)) at rest)

-- `v8m_core_cache_pop_batch` takes the first `max` nodes off the stack, in their order, as a chain that
-- ends in NULL, with its length and its last node.
pub pop_batch-takes :
    (st : State) (cpu cls max x : ℕ) (nodes : List ℕ)
    → cls < num_size_classes
    → 0 < max
    → Holds st cpu cls (x ∷ nodes)
    → let (st', c) = pop_batch st (some cpu) cls max in
      IsTaken cpu cls st' c
        (take max (x ∷ nodes))
        (drop max (x ∷ nodes))
        (last_of x (take max (x ∷ nodes)))
unfolding pop_batch pop_loop append_node
pop_batch-takes st cpu cls zero x nodes h pos s = absurd (omega arith)
pop_batch-takes st cpu cls (suc rounds) x nodes h pos s =
    let st' = (pop st (some cpu) cls).0 in
    let p = pop-Holds st cpu cls x nodes h s in
    let n = s.chain.1 in
    let range : leb num_size_classes cls ≡ false = ground arith in
    let more : (x == 0) ≡ false = ne→== _ _ (λ z. omega (arith, n.0)) in
    let first : Popped = record { chain_head = x; chain_tail = x; count = 1 } in
    let open' : IsOpen st' first [] x = record {
      node = n;
      ended = refl;
      linked = refl;
      counted = refl;
    } in
    let rounds_left : (suc rounds == 0) ≡ false = ground arith in
    rw (range, rounds_left)
      (rw (p.0, more) (loop_lem cpu cls h rounds st' first [] x nodes open' p.1 s.distinct))

-- `v8m_core_cache_push_batch` of a chain puts its nodes on the stack, in their order.
pub push_batch-Holds :
    (current : ℕ) (st : State) (cpu cls head tail : ℕ) (front nodes : List ℕ)
    → cls < num_size_classes
    → IsNode tail
    → Segment st.mem head front tail
    → IsDistinct (front ++ tail ∷ nodes)
    → Holds st cpu cls nodes
    → let r = push_batch current st (some cpu) cls head tail in
      (r.1 ≡ true) × Holds (r.0) cpu cls (front ++ tail ∷ nodes)
unfolding push_batch publish_donor link_chain
push_batch-Holds current st cpu cls head tail front nodes h n front_linked d s =
    let old = st.stacks cpu cls in
    let (before, after, _) = IsDistinct-middle front tail nodes d in
    let pos = head_pos st.mem head tail front n front_linked in
    let null : (head == 0) ≡ false = ground arith in
    let null' : (tail == 0) ≡ false = ground arith in
    let range : leb num_size_classes cls ≡ false = ground arith in
    let small = head-lt st.mem head tail front n front_linked in
    let top = make_ptr head (tagptr_tag old + 1) small in
    rw (null, null', range)
      (
        refl,
        record {
          chain =
              rw (update_self st.stacks cpu _, update_self (st.stacks cpu) cls _, top)
                (subst (λ l. Segment (update st.mem tail (tagptr_ptr old)) head l 0)
                  (append_assoc front (tail ∷ []) nodes)
                  (Segment-append (update st.mem tail (tagptr_ptr old)) head (tagptr_ptr old) 0
                    (front ++ tail ∷ []) nodes
                    (Segment-extend st.mem head tail (tagptr_ptr old) front n before front_linked)
                    (Segment-update st.mem tail _ _ 0 nodes after s.chain)));
          distinct = d;
        },
      )
