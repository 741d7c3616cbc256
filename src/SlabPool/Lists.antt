-- ===== src/SlabPool/Lists.antt =====
-- The lists of a slab pool: which pages stand on them.
use v8malloc.Prelude.{
  ℕ, ◌<◌, ◌≡◌, ◌≢◌, ◌⊎◌, refl, sym, ap, ◌∙◌, subst, inl, inr, false, List, [], ◌∷◌, ◌==◌, arith,
  Bool-cases, eq→==, ne→==, ==→eq, update, update_self, update_ne,
}
use v8malloc.SlabPool.{Class, Pool, unlink, set_class, write_page, unlink_from_class}
use v8malloc.SlabPool.Dispatch.{Page, size_class_of, slab_is_full_dispatch}

abbrev pub Among : ℕ → List ℕ → Type 0
Among x [] = ⊥
Among x (y ∷ rest) = (x ≡ y) ⊎ Among x rest

-- No page stands twice in the list.
abbrev pub IsOnce : List ℕ → Type 0
IsOnce [] = Unit {0}
IsOnce (x ∷ rest) = (Among x rest → ⊥) × IsOnce rest

pub same_page : (a b : ℕ) → (a ≡ b) ⊎ (a ≢ b)
same_page a b = elim (Bool-cases (a == b)) [
  | inl t ↦ inl (==→eq a b t)
  | inr f ↦ inr (λ e. absurd (ground (arith, e)))
]

module _ (page : ℕ) where
  unlink_here : (y : ℕ) (rest : List ℕ) → y ≡ page → unlink (y ∷ rest) page ≡ rest
  unfolding unlink
  unlink_here y rest e = rw (eq→== _ _ e) refl

  unlink_later : (y : ℕ) (rest : List ℕ) → y ≢ page → unlink (y ∷ rest) page ≡ y ∷ unlink rest page
  unfolding unlink
  unlink_later y rest n = rw (ne→== _ _ n) refl

  pub of_unlink : (l : List ℕ) (x : ℕ) → Among x (unlink l page) → Among x l
  unfolding unlink
  of_unlink [] x h = h
  of_unlink (y ∷ rest) x h = elim (same_page y page) [
    | inl same ↦ inr (subst (Among x) (unlink_here y rest same) h)
    | inr other ↦ elim (subst (Among x) (unlink_later y rest other) h) [
      | inl here ↦ inl here
      | inr there ↦ inr (of_unlink rest x there)
    ]
  ]

  pub unlink-IsOnce : (l : List ℕ) → IsOnce l → IsOnce (unlink l page)
  unfolding unlink
  unlink-IsOnce [] v = tt
  unlink-IsOnce (y ∷ rest) v = elim (same_page y page) [
    | inl same ↦ subst IsOnce (sym (unlink_here y rest same)) v.1
    | inr other ↦
        subst IsOnce (sym (unlink_later y rest other))
          (λ h. v.0 (of_unlink rest y h), unlink-IsOnce rest v.1)
  ]

  pub unlink_gone : (l : List ℕ) → IsOnce l → Among page (unlink l page) → ⊥
  unfolding unlink
  unlink_gone [] v h = h
  unlink_gone (y ∷ rest) v h = elim (same_page y page) [
    | inl same ↦
        v.0 (subst (λ x. Among x rest) (sym same) (subst (Among page) (unlink_here y rest same) h))
    | inr other ↦ elim (subst (Among page) (unlink_later y rest other) h) [
      | inl here ↦ other (sym here)
      | inr there ↦ unlink_gone rest v.1 there
    ]
  ]

-- The partial pages of a class are of that class, have a free slot, and are listed once; the current page
-- is not among them.
pub record IsClass (pages : ℕ → Page) (cls : ℕ) (c : Class) : Type 0 where
  pub once : IsOnce c.partials
  pub apart : Among c.current c.partials → ⊥
  pub sound : (page : ℕ) → Among page c.partials → 0 < page
  pub classed : (page : ℕ) → Among page c.partials → size_class_of (pages page) ≡ cls
  pub open_page : (page : ℕ) → Among page c.partials → slab_is_full_dispatch (pages page) ≡ false
  pub current_class : 0 < c.current → size_class_of (pages c.current) ≡ cls

abbrev pub IsListed : Pool → Type 0
IsListed pool = (cls : ℕ) → IsClass pool.pages cls (pool.classes cls)

-- The page stands on a list of its class.
abbrev pub IsOnList : Pool → ℕ → Type 0
IsOnList pool page =
    let c = pool.classes (size_class_of (pool.pages page)) in
    (c.current ≡ page) ⊎ Among page c.partials

pub set_class-IsListed :
    (pool : Pool) (cls : ℕ) (c : Class)
    → IsListed pool
    → IsClass pool.pages cls c
    → IsListed (set_class pool cls c)
set_class-IsListed pool cls c v w k = elim (same_page k cls) [
  | inl same ↦
      subst (λ j. IsClass pool.pages j (update pool.classes cls c j)) (sym same)
        (subst (IsClass pool.pages cls) (sym (update_self pool.classes cls c)) w)
  | inr other ↦ subst (IsClass pool.pages k) (sym (update_ne pool.classes cls c k other)) (v k)
]

-- A page changes that keeps its class and has a free slot afterwards.
module _ (pool : Pool) (page : ℕ) (p : Page)
    (same_class : size_class_of p ≡ size_class_of (pool.pages page))
    (is_open : slab_is_full_dispatch p ≡ false) where
  class_kept : (x : ℕ) → size_class_of (update pool.pages page p x) ≡ size_class_of (pool.pages x)
  class_kept x = elim (same_page x page) [
    | inl same ↦
        subst (λ y. size_class_of (update pool.pages page p y) ≡ size_class_of (pool.pages y))
          (sym same) (ap size_class_of (update_self pool.pages page p) ∙ same_class)
    | inr other ↦ ap size_class_of (update_ne pool.pages page p x other)
  ]

  open_kept :
      (x : ℕ)
      → slab_is_full_dispatch (pool.pages x) ≡ false
      → slab_is_full_dispatch (update pool.pages page p x) ≡ false
  open_kept x o = elim (same_page x page) [
    | inl same ↦
        subst (λ y. slab_is_full_dispatch (update pool.pages page p y) ≡ false) (sym same)
          (ap slab_is_full_dispatch (update_self pool.pages page p) ∙ is_open)
    | inr other ↦ ap slab_is_full_dispatch (update_ne pool.pages page p x other) ∙ o
  ]

  pub write-IsListed : IsListed pool → IsListed (write_page pool page p)
  write-IsListed v k = record {
    once = (v k).once;
    apart = (v k).apart;
    sound = (v k).sound;
    classed = λ x h. class_kept x ∙ (v k).classed x h;
    open_page = λ x h. open_kept x ((v k).open_page x h);
    current_class = λ h. class_kept _ ∙ (v k).current_class h;
  }

module _ (pages : ℕ → Page) (cls : ℕ) (c : Class) (page : ℕ) (v : IsClass pages cls c) where
  pub push-IsClass :
      0 < page
      → size_class_of (pages page) ≡ cls
      → slab_is_full_dispatch (pages page) ≡ false
      → (Among page c.partials → ⊥)
      → c.current ≢ page
      → IsClass pages cls (record c { partials = page ∷ c.partials })
  push-IsClass pos e o n m = record {
    once = (n, v.once);
    apart = λ h. elim h [ inl here ↦ m here | inr there ↦ v.apart there ];
    sound = λ x h. elim h [
      | inl here ↦ subst (λ y. 0 < y) (sym here) pos
      | inr there ↦ v.sound x there
    ];
    classed = λ x h. elim h [
      | inl here ↦ ap (λ y. size_class_of (pages y)) here ∙ e
      | inr there ↦ v.classed x there
    ];
    open_page = λ x h. elim h [
      | inl here ↦ ap (λ y. slab_is_full_dispatch (pages y)) here ∙ o
      | inr there ↦ v.open_page x there
    ];
    current_class = v.current_class;
  }

  no_null : Among 0 c.partials → ⊥
  no_null h = let pos = v.sound 0 h in omega arith

  dropped-IsClass : IsClass pages cls (record c { current = 0 })
  dropped-IsClass = record {
    once = v.once;
    apart = no_null;
    sound = v.sound;
    classed = v.classed;
    open_page = v.open_page;
    current_class = λ h. absurd (omega arith);
  }

  unlinked-IsClass : IsClass pages cls (record c { partials = unlink c.partials page })
  unlinked-IsClass = record {
    once = unlink-IsOnce page c.partials v.once;
    apart = λ h. v.apart (of_unlink page c.partials c.current h);
    sound = λ x h. v.sound x (of_unlink page c.partials x h);
    classed = λ x h. v.classed x (of_unlink page c.partials x h);
    open_page = λ x h. v.open_page x (of_unlink page c.partials x h);
    current_class = v.current_class;
  }

  -- Afterwards the page is on no list of the class.
  pub unlink_from_class-IsClass :
      0 < page
      → let d = unlink_from_class c page in
        IsClass pages cls d × (d.current ≢ page) × (Among page d.partials → ⊥)
  unlink_from_class-IsClass pos = elim (same_page c.current page) [
    | inl same ↦
        rw (eq→== _ _ same)
          (dropped-IsClass, λ e. omega arith, subst (λ x. Among x c.partials → ⊥) same v.apart)
    | inr other ↦ rw (ne→== _ _ other) (unlinked-IsClass, other, unlink_gone page c.partials v.once)
  ]
