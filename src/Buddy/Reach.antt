-- ===== src/Buddy/Reach.antt =====
-- One call of the buddy allocator, seen by those who hold blocks: what they hold stays theirs.
use v8malloc.Prelude.{
  ℕ, ◌+◌, ◌≤◌, ◌<◌, ◌≡◌, ◌≢◌, ◌⊎◌, refl, sym, ap, ◌∙◌, inl, inr, Bool, true, false, ◌||◌, ◌&&◌,
  arith, ◌==◌, Bool-cases, leb, subst, ==→eq, eq→==,
}
use v8malloc.Words.{test_bit}
use v8malloc.Buddy.{Buddy, levels, max_block, alloc, free, size_to_level, level_to_size}
use v8malloc.Buddy.Geometry.{pages, shr, addr, addr-eq, size_to_level_fits}
use v8malloc.Buddy.Inv.{IsArena, nothing}
use v8malloc.Buddy.Alloc.Outcome.{served_or_refused}
use v8malloc.Buddy.Free.{frees_allocated_block}
use v8malloc.Buddy.Base.{alloc-base, free-base}
use v8malloc.Buddy.Ranges.{ranges_apart}
use v8malloc.Buddy.Query.{allocated_apart}

-- What a caller holds: the pointer, and the size that it asked for.
pub record Block : Type 0 where
  pub address : ℕ
  pub size : ℕ

or_true : (c : Bool) → (c || true) ≡ true
or_true true = refl
or_true false = refl

-- The block lies where the arena says, and is marked as allocated.
pub record IsOwned (b : Buddy) (x : Block) : Type 0 where
  pub page : ℕ
  pub inside : page < pages
  pub level : size_to_level x.size < levels
  pub fits : x.size ≤ level_to_size (size_to_level x.size)
  pub place : x.address ≡ addr b.arena_base (size_to_level x.size) (shr page (size_to_level x.size))
  pub marked :
      test_bit (b.alloc_bitmap (size_to_level x.size)) (shr page (size_to_level x.size)) ≡ true

-- Two blocks of one level have different addresses.
abbrev pub IsOther : Block → Block → Type 0
IsOther x y = size_to_level x.size ≡ size_to_level y.size → x.address ≢ y.address

-- No byte belongs to both.
abbrev pub AreApart : Block → Block → Type 0
AreApart x y = (x.address + x.size ≤ y.address) ⊎ (y.address + y.size ≤ x.address)

-- What the caller of `v8m_buddy_alloc` gets.
abbrev pub new_block : Buddy → ℕ → Block
new_block b size = record { address = (alloc b size).1; size = size }

module _ (b : Buddy) (a : IsArena b nothing) where
  half_apart :
      (x y : Block)
      → IsOwned b x
      → IsOwned b y
      → IsOther x y
      → size_to_level x.size ≤ size_to_level y.size
      → AreApart x y
  unfolding addr
  half_apart x y h k ne le =
      let l = size_to_level x.size in
      let m = size_to_level y.size in
      let differ : shr h.page m ≢ shr k.page m = λ e.
        (let shared : test_bit (b.alloc_bitmap m) (shr h.page m) ≡ true =
            subst (λ j. test_bit (b.alloc_bitmap m) j ≡ true) (sym e) k.marked in
          let same = allocated_apart b a l m h.page h.level k.level h.inside h.marked shared in
          ne same (
            h.place
            ∙ ap (λ n. addr b.arena_base n (shr h.page n)) same
            ∙ ap (addr b.arena_base m) e
            ∙ sym k.place)) in
      let fx = h.fits in
      let fy = k.fits in
      let px = h.place in
      let py = k.place in
      elim (ranges_apart l m h.page k.page le differ) [
        | inl before ↦ inl (omega arith)
        | inr after ↦ inr (omega arith)
      ]

  -- Blocks of different places have no byte in common.
  pub owned_apart : (x y : Block) → IsOwned b x → IsOwned b y → IsOther x y → AreApart x y
  owned_apart x y h k ne = elim (Bool-cases (leb (size_to_level x.size) (size_to_level y.size))) [
    | inl t ↦ half_apart x y h k ne (ground arith)
    | inr f ↦ elim (half_apart y x k h (λ e q. ne (sym e) (sym q)) (ground arith)) [
      | inl u ↦ inr u
      | inr u ↦ inl u
    ]
  ]

  pub freed-IsArena : (x : Block) → IsOwned b x → IsArena (free b x.address x.size) nothing
  freed-IsArena x h =
      subst (λ p. IsArena (free b p x.size) nothing) (sym h.place)
        (frees_allocated_block b x.size h.page a h.level h.inside h.marked).0

  pub freed-IsOwned :
      (x y : Block) → IsOwned b x → IsOwned b y → IsOther x y → IsOwned (free b x.address x.size) y
  freed-IsOwned x y h k ne =
      let l = size_to_level x.size in
      let m = size_to_level y.size in
      let bits = (frees_allocated_block b x.size h.page a h.level h.inside h.marked).1 in
      let differ : (m == l && shr k.page m == shr h.page l) ≡ false =
        elim (Bool-cases (m == l && shr k.page m == shr h.page l)) [
          | inr f ↦ f
          | inl t ↦
              (let same : m ≡ l = ground arith in
                let index : shr k.page m ≡ shr h.page l = ground arith in
                absurd (
                  ne (sym same) (
                    h.place
                    ∙ sym (
                        k.place
                        ∙ ap (λ n. addr b.arena_base n (shr k.page m)) same
                        ∙ ap (addr b.arena_base l) index))))
        ] in
      let old = k.marked in
      subst (λ p. IsOwned (free b p x.size) y) (sym h.place)
        (record {
          page = k.page;
          inside = k.inside;
          level = k.level;
          fits = k.fits;
          place = k.place ∙ ap (λ base. addr base m (shr k.page m)) (sym (free-base b _ x.size));
          marked = bits m (shr k.page m) ∙ rw (old, differ) refl;
        })

  -- A block that was free is none that was marked.
  new_place :
      (p q t m : ℕ)
      → p < pages
      → q < pages
      → m < levels
      → t ≡ m
      → addr b.arena_base t (shr p t) ≡ addr b.arena_base m (shr q m)
      → (shr q t ≡ shr p t → test_bit (b.alloc_bitmap m) (shr q m) ≡ false)
      → test_bit (b.alloc_bitmap m) (shr q m) ≡ true
      → ⊥
  new_place p q t m hp hq hm e same free_bit marked =
      let places : addr b.arena_base t (shr p t) ≡ addr b.arena_base t (shr q t) =
        same ∙ ap (λ n. addr b.arena_base n (shr q n)) (sym e) in
      let index : shr q t ≡ shr p t =
        ==→eq _ _ (sym (addr-eq b.arena_base t (shr p t) (shr q t)) ∙ eq→== _ _ places) in
      let f = free_bit index in ground arith

  pub served-IsArena :
      (size : ℕ)
      → 0 < size
      → size ≤ max_block
      → (alloc b size).1 ≢ 0
      → IsArena (alloc b size).0 nothing
        × IsOwned (alloc b size).0 (new_block b size)
        × ((y : Block) → IsOwned b y → IsOwned (alloc b size).0 y × IsOther (new_block b size) y)
  served-IsArena size pos le ne = elim (served_or_refused b size a pos le) [
    | inl refused ↦ absurd (ne (ap (λ r. r.1) refused.0))
    | inr o ↦
        (let t = size_to_level size in
          let base = alloc-base b size in
          (
            o.arena,
            record {
              page = o.page;
              inside = o.inside;
              level = (size_to_level_fits size le).0;
              fits = o.fits;
              place = o.start ∙ ap (λ base. addr base t (shr o.page t)) (sym base);
              marked =
                  o.marked t (shr o.page t)
                  ∙ rw (eq→== t t refl, eq→== (shr o.page t) (shr o.page t) refl)
                      (or_true (test_bit (b.alloc_bitmap t) (shr o.page t)));
            },
            λ y k.
                (let m = size_to_level y.size in
                  let old = k.marked in
                  (
                    record {
                      page = k.page;
                      inside = k.inside;
                      level = k.level;
                      fits = k.fits;
                      place = k.place ∙ ap (λ base. addr base m (shr k.page m)) (sym base);
                      marked = o.marked m (shr k.page m) ∙ rw old refl;
                    },
                    λ e q.
                        new_place o.page k.page t m o.inside k.inside k.level e
                          (sym o.start ∙ q ∙ k.place) (o.was_free m k.page k.level k.inside)
                          k.marked,
                  )),
          ))
  ]
