-- ===== src/SlabPool/Kind.antt =====
-- The two kinds of page against the test of src/v8m_slab_pool.c, `size_class < V8M_SMALL_FIRST_CLASS`.
use v8malloc.Prelude.{ℕ, ◌^◌, ◌<◌, ◌≡◌, inl, inr, Bool, true, false, ltb, arith, Bool-cases}
use v8malloc.SizeClass.{Table}
use v8malloc.Slab.Tiny.{TinyMeta, claim_slot, find_word, bitmap_words, clear_index}
use v8malloc.Slab.Tiny
use v8malloc.Slab.Small
use v8malloc.Slab.Small.{Memory}
use v8malloc.SlabPool.Dispatch.{
  Page, tiny, small, size_class_of, small_first_class, slab_init_dispatch, slab_alloc_dispatch,
  slab_free_dispatch,
}

abbrev is_tiny : Page → Bool
is_tiny (tiny meta) = true
is_tiny (small meta mem) = false

-- The constructor says what the test of the class says.
abbrev IsOfKind : Page → Type 0
IsOfKind p = is_tiny p ≡ ltb (size_class_of p) small_first_class

-- A page is set up as the kind of its class.
pub init-IsOfKind :
    (table : Table) (cpu page : ℕ) (mem : Memory) (size_class owner : ℕ)
    → size_class < 2 ^ 16
    → IsOfKind (slab_init_dispatch table cpu page mem size_class owner)
unfolding slab_init_dispatch Tiny.init Small.init
init-IsOfKind table cpu page mem size_class owner h =
    elim (Bool-cases (ltb size_class small_first_class)) [
      | inl t ↦ rw t (ground arith)
      | inr f ↦ rw f (ground arith)
    ]

-- An allocation leaves the kind and the class of a page.
pub alloc-IsOfKind : (page : ℕ) (p : Page) → IsOfKind p → IsOfKind (slab_alloc_dispatch page p).0
unfolding slab_alloc_dispatch Tiny.alloc Small.alloc claim_slot
alloc-IsOfKind page (tiny meta) k = ground (arith, k)
alloc-IsOfKind page (small meta mem) k = ground (arith, k)

-- So does a free.
pub free-IsOfKind :
    (page : ℕ) (p : Page) (obj : ℕ) → IsOfKind p → IsOfKind (slab_free_dispatch page p obj).0
unfolding slab_free_dispatch Tiny.free Small.free
free-IsOfKind page (tiny meta) obj k = k
free-IsOfKind page (small meta mem) obj k = k
