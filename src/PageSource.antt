-- ===== src/PageSource.antt =====
-- What the pools call of the page heap, src/v8m_page_heap.h, and what they rely on.
use v8malloc.Prelude.{ℕ, ◌+◌, ◌%◌, ◌^◌, ◌≤◌, ◌<◌, ◌≡◌, ◌≢◌, ◌⊎◌}

-- A call returns the heap afterwards; `page_heap_alloc` returns an address too, or 0 for NULL.
pub record PageSource (Heap : Type 0) : Type 0 where
  pub page_heap_alloc : Heap → ℕ → ℕ → Heap × ℕ
  pub page_heap_free : Heap → ℕ → ℕ → Heap
  pub advise_dont_need : Heap → ℕ → ℕ → Heap

-- No byte belongs to both of two regions of `size` bytes.
abbrev pub AreApart : ℕ → ℕ → ℕ → Type 0
AreApart size p q = (p + size ≤ q) ⊎ (q + size ≤ p)

-- `IsOut heap p`: a region of `size` bytes at `p` is handed out. A new region lies apart from those that
-- are out, on a border of its size, and below the end of the address space.
pub record IsPageSource {Heap : Type 0} (os : PageSource Heap) (size : ℕ)
    (IsOut : Heap → ℕ → Type 0) : Type 0 where
  pub fresh :
      (heap : Heap)
      → let r = os.page_heap_alloc heap size size in
        (0 < r.1)
        → IsOut r.0 r.1
          × (r.1 + size < 2 ^ 64)
          × (r.1 % size ≡ 0)
          × ((q : ℕ) → IsOut heap q → AreApart size r.1 q)
  pub alloc_keeps :
      (heap : Heap) (q : ℕ) → IsOut heap q → IsOut (os.page_heap_alloc heap size size).0 q
  pub free_keeps :
      (heap : Heap) (p q : ℕ) → p ≢ q → IsOut heap q → IsOut (os.page_heap_free heap p size) q
  pub advise_keeps :
      (heap : Heap) (p q : ℕ) → IsOut heap q → IsOut (os.advise_dont_need heap p size) q
