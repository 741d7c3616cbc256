-- ===== src/NumaPool/Laws.antt =====
-- What a node of the pool keeps, and what a carve and a release do to its slabs.
pub mod Carve
pub mod Release
pub mod Pool
use v8malloc.Prelude.{
  ℕ, ◌+◌, ◌≡◌, ◌≢◌, ◌⊎◌, inl, inr, true, false, some, List, [], ◌∷◌, ap, sym, ◌∙◌, subst,
}
use v8malloc.HugeSlab.{HugeSlab, is_full}
use v8malloc.NumaPool.{Node, list_unlink, write_back, DescSource, huge_page_size}
use v8malloc.NumaPool.Lists.{
  Has, Lacks, Distinct, of_unlink, unlink-Distinct, of_write, write-Distinct,
}
use v8malloc.NumaPool.Slots.{IsPage, IsCarved}

abbrev pub Holds : List HugeSlab → List HugeSlab → HugeSlab → Type 0
Holds p f d = Has d p ⊎ Has d f

module _ {Heap : Type 0} (IsOut : Heap → ℕ → Type 0) where
  -- A huge page that the node holds: memory of the page heap.
  abbrev pub IsHeld : Heap → HugeSlab → Type 0
  IsHeld heap d = IsPage d × IsOut heap d.base

  -- The pages of the partial list have a free slot, those of the full list have none, and no page is
  -- listed twice.
  pub record IsListed (heap : Heap) (p f : List HugeSlab) : Type 0 where
    pub partials : (d : HugeSlab) → Has d p → IsHeld heap d × (is_full (some d) ≡ false)
    pub fulls : (d : HugeSlab) → Has d f → IsHeld heap d × (is_full (some d) ≡ true)
    pub distinct : Distinct p
    pub distinct_fulls : Distinct f
    pub across : (d e : HugeSlab) → Has d p → Has e f → d.base ≢ e.base

  pub held_by :
      (heap : Heap) (p f : List HugeSlab) (d : HugeSlab)
      → IsListed heap p f
      → Holds p f d
      → IsHeld heap d
  held_by heap p f d v (inl h) = (v.partials d h).0
  held_by heap p f d v (inr h) = (v.fulls d h).0

  -- The list without a page.
  pub unlink_partial :
      (heap : Heap) (p f : List HugeSlab) (b : ℕ)
      → IsListed heap p f
      → IsListed heap (list_unlink p b) f
  unlink_partial heap p f b v = record {
    partials = λ d h. v.partials d (of_unlink b p d h);
    fulls = v.fulls;
    distinct = unlink-Distinct b p v.distinct;
    distinct_fulls = v.distinct_fulls;
    across = λ d e h i. v.across d e (of_unlink b p d h) i;
  }

  pub unlink_full :
      (heap : Heap) (p f : List HugeSlab) (b : ℕ)
      → IsListed heap p f
      → IsListed heap p (list_unlink f b)
  unlink_full heap p f b v = record {
    partials = v.partials;
    fulls = λ d h. v.fulls d (of_unlink b f d h);
    distinct = v.distinct;
    distinct_fulls = unlink-Distinct b f v.distinct_fulls;
    across = λ d e h i. v.across d e h (of_unlink b f e i);
  }

  -- A page in front.
  pub push_partial :
      (heap : Heap) (p f : List HugeSlab) (d : HugeSlab)
      → IsListed heap p f
      → IsHeld heap d
      → is_full (some d) ≡ false
      → Lacks p d.base
      → Lacks f d.base
      → IsListed heap (d ∷ p) f
  push_partial heap p f d v held open' n m = record {
    partials = λ e h. elim h [
      | inl here ↦ subst (λ x. IsHeld heap x × (is_full (some x) ≡ false)) (sym here) (held, open')
      | inr there ↦ v.partials e there
    ];
    fulls = v.fulls;
    distinct = (n, v.distinct);
    distinct_fulls = v.distinct_fulls;
    across = λ x e h i. elim h [
      | inl here ↦ (λ s. m e i (sym s ∙ ap HugeSlab.base here))
      | inr there ↦ v.across x e there i
    ];
  }

  pub push_full :
      (heap : Heap) (p f : List HugeSlab) (d : HugeSlab)
      → IsListed heap p f
      → IsHeld heap d
      → is_full (some d) ≡ true
      → Lacks p d.base
      → Lacks f d.base
      → IsListed heap p (d ∷ f)
  push_full heap p f d v held closed n m = record {
    partials = v.partials;
    fulls = λ e h. elim h [
      | inl here ↦ subst (λ x. IsHeld heap x × (is_full (some x) ≡ true)) (sym here) (held, closed)
      | inr there ↦ v.fulls e there
    ];
    distinct = v.distinct;
    distinct_fulls = (m, v.distinct_fulls);
    across = λ x e h i. elim i [
      | inl here ↦ (λ s. n x h (s ∙ ap HugeSlab.base here))
      | inr there ↦ v.across x e h there
    ];
  }

  -- A page of the partial list that changes.
  pub write_partial :
      (heap : Heap) (p f : List HugeSlab) (d : HugeSlab)
      → IsListed heap p f
      → IsHeld heap d
      → is_full (some d) ≡ false
      → Lacks f d.base
      → IsListed heap (write_back p d) f
  write_partial heap p f d v held open' m = record {
    partials = λ e h. elim (of_write d p e h) [
      | inl new ↦ subst (λ x. IsHeld heap x × (is_full (some x) ≡ false)) (sym new) (held, open')
      | inr (old, n) ↦ v.partials e old
    ];
    fulls = v.fulls;
    distinct = write-Distinct d p v.distinct;
    distinct_fulls = v.distinct_fulls;
    across = λ x e h i. elim (of_write d p x h) [
      | inl new ↦ (λ s. m e i (sym s ∙ ap HugeSlab.base new))
      | inr (old, n) ↦ v.across x e old i
    ];
  }

  -- The heap has changed, and the pages of the node are still out.
  pub move_heap :
      (heap heap' : Heap) (p f : List HugeSlab)
      → IsListed heap p f
      → ((d : HugeSlab) → Holds p f d → IsOut heap d.base → IsOut heap' d.base)
      → IsListed heap' p f
  move_heap heap heap' p f v keeps = record {
    partials =
        λ d h. let (held, open') = v.partials d h in ((held.0, keeps d (inl h) held.1), open');
    fulls = λ d h. let (held, closed) = v.fulls d h in ((held.0, keeps d (inr h) held.1), closed);
    distinct = v.distinct;
    distinct_fulls = v.distinct_fulls;
    across = v.across;
  }

  abbrev pub IsNode : Heap → Node → Type 0
  IsNode heap node = IsListed heap node.partials node.fulls

  -- The memory of the descriptors is apart from the huge pages.
  pub record IsDescSource (descs : DescSource Heap) : Type 0 where
    pub alloc_out : (heap : Heap) (q : ℕ) → IsOut heap q → IsOut (descs.desc_alloc heap).0 q
    pub free_out : (heap : Heap) (q : ℕ) → IsOut heap q → IsOut (descs.desc_free heap) q

-- The node has carved the slab at this address.
abbrev pub Carved : Node → ℕ → Type 0
Carved node a = (d : HugeSlab) × Holds node.partials node.fulls d × IsCarved d a
