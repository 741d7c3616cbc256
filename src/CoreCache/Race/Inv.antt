-- ===== src/CoreCache/Race/Inv.antt =====
-- What holds whatever the threads do: the links of the stack, who holds what, and what each thread knows.
use v8malloc.Prelude.{
  ℕ, ◌+◌, ◌%◌, ◌^◌, ◌≤◌, ◌<◌, ◌≡◌, ◌≢◌, sym, ap, ◌∙◌, Option, none, some, List, [], ◌∷◌, arith,
  update, update_ne,
}
use v8malloc.CoreCache.{tagptr_ptr, tagptr_tag}
use v8malloc.CoreCache.Stack.{IsNode, Segment, IsAbsent, IsDistinct, Segment-update}
use v8malloc.CoreCache.Race.{Pc, idle, push_loaded, push_linked, pop_loaded, pop_read, World}

-- A copy of the head, made when it had changed `seen` times.
pub record IsCopy (head changes old seen : ℕ) : Type 0 where
  pub past : seen ≤ changes
  pub word : old < 2 ^ 64
  pub tagged : tagptr_tag old ≡ seen % 2 ^ 16
  pub fresh : seen ≡ changes → old ≡ head

abbrev pub Holder : Type 0
Holder = ℕ → Option ℕ

-- What thread `i` knows at each point.
abbrev pub Knows : ℕ → (ℕ → ℕ) → ℕ → Holder → ℕ → Pc → Type 0
Knows head mem changes owner i idle = Unit {0}
Knows head mem changes owner i (push_loaded node old seen) =
    IsNode node × (owner node ≡ some i) × IsCopy head changes old seen
Knows head mem changes owner i (push_linked node old seen) =
    IsNode node × (owner node ≡ some i) × IsCopy head changes old seen × (mem node ≡ tagptr_ptr old)
Knows head mem changes owner i (pop_loaded old seen) = IsCopy head changes old seen
Knows head mem changes owner i (pop_read old next seen) =
    IsCopy head changes old seen
    × (0 < tagptr_ptr old)
    × (seen ≡ changes → next ≡ mem (tagptr_ptr old))

abbrev pub IsFree : Holder → List ℕ → Type 0
IsFree owner [] = Unit {0}
IsFree owner (x ∷ rest) = (owner x ≡ none) × IsFree owner rest

-- The head and its links are the pushed nodes, each once, and nobody holds them.
pub record IsStack (head : ℕ) (mem : ℕ → ℕ) (changes : ℕ) (pushed : List ℕ) (owner : Holder)
    : Type 0 where
  pub word : head < 2 ^ 64
  pub tagged : tagptr_tag head ≡ changes % 2 ^ 16
  pub chain : Segment mem (tagptr_ptr head) pushed 0
  pub distinct : IsDistinct pushed
  pub free : IsFree owner pushed

pub record IsSound (w : World) : Type 0 where
  pub stack : IsStack w.head w.mem w.changes w.pushed w.owner
  pub threads : (i : ℕ) → Knows w.head w.mem w.changes w.owner i (w.pc i)

some-ne-none : {a : Option ℕ} {i : ℕ} → a ≡ some i → a ≢ none
some-ne-none e f = let g : some _ ≡ none = sym e ∙ f in cc

pub held-IsAbsent :
    (owner : Holder) (a i : ℕ) (nodes : List ℕ)
    → owner a ≡ some i
    → IsFree owner nodes
    → IsAbsent a nodes
held-IsAbsent owner a i [] h f = tt
held-IsAbsent owner a i (x ∷ rest) h f =
    (λ e. some-ne-none h (ap owner (sym e) ∙ f.0), held-IsAbsent owner a i rest h f.1)

pub IsFree-update :
    (owner : Holder) (a : ℕ) (o : Option ℕ) (nodes : List ℕ)
    → IsAbsent a nodes
    → IsFree owner nodes
    → IsFree (update owner a o) nodes
IsFree-update owner a o [] h f = tt
IsFree-update owner a o (x ∷ rest) h f =
    (rw (update_ne owner a o x h.0) f.0, IsFree-update owner a o rest h.1 f.1)

-- A held object is written: the stack stays, and so does what the other threads know.
module _ (head : ℕ) (mem : ℕ → ℕ) (changes : ℕ) (pushed : List ℕ) (owner : Holder)
    (s : IsStack head mem changes pushed owner) (a v j : ℕ) (held : owner a ≡ some j) where
  pub write-IsStack : IsStack head (update mem a v) changes pushed owner
  write-IsStack = record {
    word = s.word;
    tagged = s.tagged;
    chain =
        Segment-update mem a v (tagptr_ptr head) 0 pushed
          (held-IsAbsent owner a j pushed held s.free) s.chain;
    distinct = s.distinct;
    free = s.free;
  }

  top_ne : 0 < tagptr_ptr head → tagptr_ptr head ≢ a
  top_ne pos e = top_case pushed s.chain s.free
    where
      top_case : (nodes : List ℕ) → Segment mem (tagptr_ptr head) nodes 0 → IsFree owner nodes → ⊥
      top_case [] c f = omega arith
      top_case (x ∷ rest) c f = some-ne-none held (ap owner (sym e ∙ c.0) ∙ f.0)

  holders_ne : (i node : ℕ) → i ≢ j → owner node ≡ some i → node ≢ a
  holders_ne i node d h e = let g : some i ≡ some j = sym h ∙ ap owner e ∙ held in d (cc)

  pub write-Knows :
      (i : ℕ) (p : Pc)
      → i ≢ j
      → Knows head mem changes owner i p
      → Knows head (update mem a v) changes owner i p
  write-Knows i idle d k = k
  write-Knows i (push_loaded node old seen) d k = k
  write-Knows i (push_linked node old seen) d k =
      (k.0, k.1, k.2, rw (update_ne mem a v node (holders_ne i node d k.1)) k.3)
  write-Knows i (pop_loaded old seen) d k = k
  write-Knows i (pop_read old next seen) d k = (
    k.0,
    k.1,
    λ e.
        let same = k.0.fresh e in
        let ne : tagptr_ptr old ≢ a =
          λ q. top_ne (rw (← same) k.1) (ap tagptr_ptr (sym same) ∙ q) in
        rw (update_ne mem a v (tagptr_ptr old) ne) (k.2 e),
  )

-- The head changes and one object changes hands: every copy of the head is out of date.
pub IsCopy-change :
    (head head' changes old seen : ℕ)
    → IsCopy head changes old seen
    → IsCopy head' (changes + 1) old seen
IsCopy-change head head' changes old seen c = record {
  past = omega (arith, c.past);
  word = c.word;
  tagged = c.tagged;
  fresh = λ e. absurd (omega (arith, c.past));
}

pub change-Knows :
    (head head' : ℕ) (mem : ℕ → ℕ) (changes : ℕ) (owner : Holder) (a : ℕ) (o : Option ℕ) (i : ℕ)
    (p : Pc)
    → owner a ≢ some i
    → Knows head mem changes owner i p
    → Knows head' mem (changes + 1) (update owner a o) i p
change-Knows head head' mem changes owner a o i idle d k = k
change-Knows head head' mem changes owner a o i (push_loaded node old seen) d k = (
  k.0,
  rw (update_ne owner a o node (λ e. d (ap owner (sym e) ∙ k.1))) k.1,
  IsCopy-change head head' changes old seen k.2,
)
change-Knows head head' mem changes owner a o i (push_linked node old seen) d k = (
  k.0,
  rw (update_ne owner a o node (λ e. d (ap owner (sym e) ∙ k.1))) k.1,
  IsCopy-change head head' changes old seen k.2,
  k.3,
)
change-Knows head head' mem changes owner a o i (pop_loaded old seen) d k =
    IsCopy-change head head' changes old seen k
change-Knows head head' mem changes owner a o i (pop_read old next seen) d k =
    (IsCopy-change head head' changes old seen k.0, k.1, λ e. absurd (omega (arith, k.0.past)))

-- A copy in time with an equal word is a copy of the present.
pub same-seen :
    (head changes old seen : ℕ)
    → tagptr_tag head ≡ changes % 2 ^ 16
    → IsCopy head changes old seen
    → changes < seen + 2 ^ 16
    → head ≡ old
    → seen ≡ changes
same-seen head changes old seen t c recent e =
    let tags : tagptr_tag head ≡ tagptr_tag old = ap tagptr_tag e in omega (arith, c.past, c.tagged)
