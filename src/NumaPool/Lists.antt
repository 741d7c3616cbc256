-- ===== src/NumaPool/Lists.antt =====
-- The lists of descriptors of a node: what `list_unlink` and the writes do to their members.
use v8malloc.Prelude.{
  ℕ, ◌≡◌, ◌≢◌, ◌⊎◌, refl, sym, ◌∙◌, ap, inl, inr, none, some, List, [], ◌∷◌, ◌==◌, Bool-cases,
  eq→==, ne→==, ==→eq, subst, arith,
}
use v8malloc.HugeSlab.{HugeSlab}
use v8malloc.NumaPool.{list_unlink, write_back, find_base}

abbrev pub Has : HugeSlab → List HugeSlab → Type 0
Has d [] = ⊥
Has d (e ∷ rest) = (d ≡ e) ⊎ Has d rest

-- No descriptor of the list has this base.
abbrev pub Lacks : List HugeSlab → ℕ → Type 0
Lacks l base = (e : HugeSlab) → Has e l → e.base ≢ base

abbrev pub Distinct : List HugeSlab → Type 0
Distinct [] = Unit {0}
Distinct (d ∷ rest) = Lacks rest d.base × Distinct rest

pub same_base : (a b : ℕ) → (a ≡ b) ⊎ (a ≢ b)
same_base a b = elim (Bool-cases (a == b)) [
  | inl t ↦ inl (==→eq a b t)
  | inr f ↦ inr (λ e. absurd (ground (arith, e)))
]

pub unlink_here :
    (d : HugeSlab) (l : List HugeSlab) (b : ℕ) → d.base ≡ b → list_unlink (d ∷ l) b ≡ l
unfolding list_unlink
unlink_here d l b e = rw (eq→== _ _ e) refl

unlink_later :
    (d : HugeSlab) (l : List HugeSlab) (b : ℕ)
    → d.base ≢ b
    → list_unlink (d ∷ l) b ≡ d ∷ list_unlink l b
unfolding list_unlink
unlink_later d l b n = rw (ne→== _ _ n) refl

write_here :
    (e : HugeSlab) (l : List HugeSlab) (d : HugeSlab)
    → e.base ≡ d.base
    → write_back (e ∷ l) d ≡ d ∷ write_back l d
unfolding write_back
write_here e l d h = rw (eq→== _ _ h) refl

write_later :
    (e : HugeSlab) (l : List HugeSlab) (d : HugeSlab)
    → e.base ≢ d.base
    → write_back (e ∷ l) d ≡ e ∷ write_back l d
unfolding write_back
write_later e l d h = rw (ne→== _ _ h) refl

module _ (b : ℕ) where
  pub of_unlink : (l : List HugeSlab) (e : HugeSlab) → Has e (list_unlink l b) → Has e l
  unfolding list_unlink
  of_unlink [] e h = h
  of_unlink (d ∷ rest) e h = elim (same_base d.base b) [
    | inl same ↦ inr (subst (Has e) (unlink_here d rest b same) h)
    | inr other ↦ elim (subst (Has e) (unlink_later d rest b other) h) [
      | inl here ↦ inl here
      | inr there ↦ inr (of_unlink rest e there)
    ]
  ]

  pub in_unlink :
      (l : List HugeSlab) (e : HugeSlab) → Has e l → e.base ≢ b → Has e (list_unlink l b)
  in_unlink [] e h n = elim h [ ]
  in_unlink (d ∷ rest) e h n = elim (same_base d.base b) [
    | inl same ↦
        subst (Has e) (sym (unlink_here d rest b same))
          (elim h [ inl here ↦ absurd (n (ap HugeSlab.base here ∙ same)) | inr there ↦ there ])
    | inr other ↦
        subst (Has e) (sym (unlink_later d rest b other))
          (elim h [ inl here ↦ inl here | inr there ↦ inr (in_unlink rest e there n) ])
  ]

  pub unlink-Lacks : (l : List HugeSlab) → Distinct l → Lacks (list_unlink l b) b
  unfolding list_unlink
  unlink-Lacks [] v = λ e h. elim h [ ]
  unlink-Lacks (d ∷ rest) v = elim (same_base d.base b) [
    | inl same ↦
        subst (λ l. Lacks l b) (sym (unlink_here d rest b same)) (subst (Lacks rest) same v.0)
    | inr other ↦
        subst (λ l. Lacks l b) (sym (unlink_later d rest b other))
          (λ e h. elim h [
            | inl here ↦ (λ s. other (sym (ap HugeSlab.base here) ∙ s))
            | inr there ↦ unlink-Lacks rest v.1 e there
          ])
  ]

  pub unlink-Distinct : (l : List HugeSlab) → Distinct l → Distinct (list_unlink l b)
  unfolding list_unlink
  unlink-Distinct [] v = tt
  unlink-Distinct (d ∷ rest) v = elim (same_base d.base b) [
    | inl same ↦ subst Distinct (sym (unlink_here d rest b same)) v.1
    | inr other ↦
        subst Distinct (sym (unlink_later d rest b other))
          (λ e h. v.0 e (of_unlink rest e h), unlink-Distinct rest v.1)
  ]

module _ (d : HugeSlab) where
  deeper :
      (f : HugeSlab) (l : List HugeSlab) (e : HugeSlab)
      → (e ≡ d) ⊎ (Has e l × (e.base ≢ d.base))
      → (e ≡ d) ⊎ (Has e (f ∷ l) × (e.base ≢ d.base))
  deeper f l e (inl new) = inl new
  deeper f l e (inr (old, n)) = inr (inr old, n)

  -- A member of the written list is the new descriptor, or a member with another base.
  pub of_write :
      (l : List HugeSlab) (e : HugeSlab)
      → Has e (write_back l d)
      → (e ≡ d) ⊎ (Has e l × (e.base ≢ d.base))
  unfolding write_back
  of_write [] e h = elim h [ ]
  of_write (f ∷ rest) e h = elim (same_base f.base d.base) [
    | inl same ↦ elim (subst (Has e) (write_here f rest d same) h) [
      | inl here ↦ inl here
      | inr there ↦ deeper f rest e (of_write rest e there)
    ]
    | inr other ↦ elim (subst (Has e) (write_later f rest d other) h) [
      | inl here ↦ inr (inl here, λ s. other (sym (ap HugeSlab.base here) ∙ s))
      | inr there ↦ deeper f rest e (of_write rest e there)
    ]
  ]

  pub in_write :
      (l : List HugeSlab) (e : HugeSlab) → Has e l → e.base ≢ d.base → Has e (write_back l d)
  in_write [] e h n = elim h [ ]
  in_write (f ∷ rest) e h n = elim (same_base f.base d.base) [
    | inl same ↦ subst (Has e) (sym (write_here f rest d same)) (elim h [
      | inl here ↦ absurd (n (ap HugeSlab.base here ∙ same))
      | inr there ↦ inr (in_write rest e there n)
    ])
    | inr other ↦
        subst (Has e) (sym (write_later f rest d other))
          (elim h [ inl here ↦ inl here | inr there ↦ inr (in_write rest e there n) ])
  ]

  pub written :
      (l : List HugeSlab) (e : HugeSlab) → Has e l → e.base ≡ d.base → Has d (write_back l d)
  written [] e h n = elim h [ ]
  written (f ∷ rest) e h n = elim (same_base f.base d.base) [
    | inl same ↦ subst (Has d) (sym (write_here f rest d same)) (inl refl)
    | inr other ↦ subst (Has d) (sym (write_later f rest d other)) (elim h [
      | inl here ↦ absurd (other (sym (ap HugeSlab.base here) ∙ n))
      | inr there ↦ inr (written rest e there n)
    ])
  ]

  -- Where nothing has the base the write changes nothing.
  pub write-Lacks : (l : List HugeSlab) → Lacks l d.base → write_back l d ≡ l
  unfolding write_back
  write-Lacks [] h = refl
  write-Lacks (f ∷ rest) h =
      write_later f rest d (h f (inl refl))
      ∙ ap (λ l. f ∷ l) (write-Lacks rest (λ e i. h e (inr i)))

  pub write-Distinct : (l : List HugeSlab) → Distinct l → Distinct (write_back l d)
  unfolding write_back
  write-Distinct [] v = tt
  write-Distinct (f ∷ rest) v = elim (same_base f.base d.base) [
    | inl same ↦
        (let gone = subst (Lacks rest) same v.0 in
          subst Distinct (sym (write_here f rest d same ∙ ap (λ l. d ∷ l) (write-Lacks rest gone)))
            (gone, v.1))
    | inr other ↦ subst Distinct (sym (write_later f rest d other)) (
      λ e h. elim (of_write rest e h) [
        | inl new ↦ (λ s. other (sym s ∙ ap HugeSlab.base new))
        | inr (old, n) ↦ v.0 e old
      ],
      write-Distinct rest v.1,
    )
  ]

  -- A descriptor that is written and then unlinked is unlinked.
  pub unlink_written :
      (l : List HugeSlab) → Distinct l → list_unlink (write_back l d) d.base ≡ list_unlink l d.base
  unfolding list_unlink write_back
  unlink_written [] v = refl
  unlink_written (f ∷ rest) v = elim (same_base f.base d.base) [
    | inl same ↦
        ap (λ l. list_unlink l d.base) (write_here f rest d same)
        ∙ unlink_here d (write_back rest d) d.base refl
        ∙ write-Lacks rest (subst (Lacks rest) same v.0)
        ∙ sym (unlink_here f rest d.base same)
    | inr other ↦
        ap (λ l. list_unlink l d.base) (write_later f rest d other)
        ∙ unlink_later f (write_back rest d) d.base other
        ∙ ap (λ l. f ∷ l) (unlink_written rest v.1)
        ∙ sym (unlink_later f rest d.base other)
  ]

-- The search finds the descriptor with a base.
pub find_base-Has :
    (l : List HugeSlab) (d : HugeSlab) → Distinct l → Has d l → find_base l d.base ≡ some d
unfolding find_base
find_base-Has [] d v h = elim h [ ]
find_base-Has (e ∷ rest) d v (inl here) =
    rw (eq→== e.base d.base (sym (ap HugeSlab.base here))) (ap some (sym here))
find_base-Has (e ∷ rest) d v (inr there) =
    rw (ne→== e.base d.base (λ s. v.0 d there (sym s))) (find_base-Has rest d v.1 there)

pub find_base-Lacks : (l : List HugeSlab) (b : ℕ) → Lacks l b → find_base l b ≡ none
unfolding find_base
find_base-Lacks [] b h = refl
find_base-Lacks (e ∷ rest) b h =
    rw (ne→== e.base b (h e (inl refl))) (find_base-Lacks rest b (λ d i. h d (inr i)))

-- A base belongs to one member.
pub one_of_base :
    (l : List HugeSlab) (d e : HugeSlab) → Distinct l → Has d l → Has e l → d.base ≡ e.base → d ≡ e
one_of_base [] d e v h i s = elim h [ ]
one_of_base (f ∷ rest) d e v (inl a) (inl b) s = a ∙ sym b
one_of_base (f ∷ rest) d e v (inl a) (inr b) s = absurd (v.0 e b (sym s ∙ ap HugeSlab.base a))
one_of_base (f ∷ rest) d e v (inr a) (inl b) s = absurd (v.0 d a (s ∙ ap HugeSlab.base b))
one_of_base (f ∷ rest) d e v (inr a) (inr b) s = one_of_base rest d e v.1 a b s
