-- ===== src/CoreCache/Stack.antt =====
-- One stack alone: push and pop are those of a list of addresses.
use v8malloc.Prelude.{
  ℕ, ◌+◌, ◌^◌, ◌<◌, ◌≡◌, ◌≢◌, refl, true, false, List, [], ◌∷◌, some, arith, leb, ◌==◌, eq→==,
  ne→==, update, update_self, update_ne,
}
use v8malloc.Words.{wrap16}
use v8malloc.SizeClass.{num_size_classes}
use v8malloc.CoreCache.{State, tagptr_make, tagptr_ptr, tagptr_tag, link_chain, take_top, push, pop}

-- An address that fits in the address bits, as those of user programs do.
abbrev pub IsNode : ℕ → Type 0
IsNode x = (0 < x) × (x < 2 ^ 48)

-- The links from `head` on visit the nodes of the list, and then reach `last`.
abbrev pub Segment : (ℕ → ℕ) → ℕ → List ℕ → ℕ → Type 0
Segment mem head [] last = head ≡ last
Segment mem head (x ∷ rest) last = (head ≡ x) × IsNode x × Segment mem (mem x) rest last

abbrev pub IsAbsent : ℕ → List ℕ → Type 0
IsAbsent a [] = Unit {0}
IsAbsent a (x ∷ rest) = (x ≢ a) × IsAbsent a rest

abbrev pub IsDistinct : List ℕ → Type 0
IsDistinct [] = Unit {0}
IsDistinct (x ∷ rest) = IsAbsent x rest × IsDistinct rest

-- The stack of a processor and class holds the nodes of the list, top first.
pub record Holds (st : State) (cpu cls : ℕ) (nodes : List ℕ) : Type 0 where
  pub chain : Segment st.mem (tagptr_ptr (st.stacks cpu cls)) nodes 0
  pub distinct : IsDistinct nodes

-- A word gives back the address and the tag that it was made of.
pub tagptr_parts :
    (ptr tag : ℕ)
    → ptr < 2 ^ 48
    → tag < 2 ^ 16
    → (tagptr_ptr (tagptr_make ptr tag) ≡ ptr) × (tagptr_tag (tagptr_make ptr tag) ≡ tag)
unfolding tagptr_make tagptr_ptr tagptr_tag
tagptr_parts ptr tag h k = omega arith

pub tagptr_make-lt : (ptr tag : ℕ) → tagptr_make ptr tag < 2 ^ 64
unfolding tagptr_make
tagptr_make-lt ptr tag = omega arith

pub tagptr_eq :
    (t u : ℕ)
    → t < 2 ^ 64
    → u < 2 ^ 64
    → tagptr_ptr t ≡ tagptr_ptr u
    → tagptr_tag t ≡ tagptr_tag u
    → t ≡ u
unfolding tagptr_ptr tagptr_tag
tagptr_eq t u h k a b = omega arith

pub Segment-update :
    (mem : ℕ → ℕ) (a v head last : ℕ) (nodes : List ℕ)
    → IsAbsent a nodes
    → Segment mem head nodes last
    → Segment (update mem a v) head nodes last
Segment-update mem a v head last [] h s = s
Segment-update mem a v head last (x ∷ rest) h s =
    (s.0, s.1, rw (update_ne mem a v x h.0) (Segment-update mem a v (mem x) last rest h.1 s.2))

pub Segment-small :
    (mem : ℕ → ℕ) (head : ℕ) (nodes : List ℕ) → Segment mem head nodes 0 → head < 2 ^ 48
Segment-small mem head [] s = omega arith
Segment-small mem head (x ∷ rest) s = omega (arith, s.0, s.1.1)

pub make_ptr : (head tag : ℕ) → head < 2 ^ 48 → tagptr_ptr (tagptr_make head (wrap16 tag)) ≡ head
make_ptr head tag h = (tagptr_parts head (wrap16 tag) h (omega arith)).0

-- `v8m_core_cache_push` of an object that the stack does not hold puts it on top.
pub push-Holds :
    (st : State) (cpu cls node : ℕ) (nodes : List ℕ)
    → cls < num_size_classes
    → IsNode node
    → IsAbsent node nodes
    → Holds st cpu cls nodes
    → ((push st (some cpu) cls node).1 ≡ true)
      × Holds ((push st (some cpu) cls node).0) cpu cls (node ∷ nodes)
unfolding push link_chain
push-Holds st cpu cls node nodes h n absent s =
    let old = st.stacks cpu cls in
    let null : (node == 0) ≡ false = ground arith in
    let range : leb num_size_classes cls ≡ false = ground arith in
    let top = make_ptr node (tagptr_tag old + 1) n.1 in
    rw (null, range)
      (
        refl,
        record {
          chain =
              rw (update_self st.stacks cpu _, update_self (st.stacks cpu) cls _, top)
                (
                  refl,
                  n,
                  rw (update_self st.mem node (tagptr_ptr old))
                      (Segment-update st.mem node _ _ 0 nodes absent s.chain),
                );
          distinct = (absent, s.distinct);
        },
      )

-- `v8m_core_cache_pop` takes the top, and gives NULL and changes nothing when there is none.
pub pop-Holds :
    (st : State) (cpu cls x : ℕ) (nodes : List ℕ)
    → cls < num_size_classes
    → Holds st cpu cls (x ∷ nodes)
    → ((pop st (some cpu) cls).1 ≡ x)
      × Holds ((pop st (some cpu) cls).0) cpu cls nodes
      × ((pop st (some cpu) cls).0.mem ≡ st.mem)
unfolding pop take_top
pop-Holds st cpu cls x nodes h s =
    let c = s.chain in
    let range : leb num_size_classes cls ≡ false = ground arith in
    let there : (tagptr_ptr (st.stacks cpu cls) == 0) ≡ false = ne→== _ _ (λ z. omega arith) in
    let next =
      make_ptr (st.mem x) (tagptr_tag (st.stacks cpu cls) + 1)
        (Segment-small st.mem (st.mem x) nodes c.2) in
    rw (range, there)
      (
        c.0,
        record {
          chain =
              rw (update_self st.stacks cpu _, update_self (st.stacks cpu) cls _, c.0, next) c.2;
          distinct = s.distinct.1;
        },
        refl,
      )

pub pop-empty : (st : State) (cpu cls : ℕ) → Holds st cpu cls [] → pop st (some cpu) cls ≡ (st, 0)
unfolding pop take_top
pop-empty st cpu cls s =
    let none_there : (tagptr_ptr (st.stacks cpu cls) == 0) ≡ true = eq→== _ _ s.chain in
    ground arith
