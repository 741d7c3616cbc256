-- ===== src/Buddy/History.antt =====
-- Every history of calls from `v8m_buddy_init` on, and the blocks that the callers hold.
use v8malloc.Prelude.{ℕ, ◌+◌, ◌≤◌, ◌<◌, ◌^◌, ◌≢◌, sym, List, [], ◌∷◌}
use v8malloc.Buddy.{Buddy, max_block, init, alloc, free}
use v8malloc.Buddy.Inv.{IsArena, nothing}
use v8malloc.Buddy.Query.{init-IsArena}
use v8malloc.Buddy.Reach.{
  Block, IsOwned, IsOther, AreApart, owned_apart, freed-IsArena, freed-IsOwned, served-IsArena,
  new_block,
}

-- `rest` is `live` without the block `x`.
pub data Picks (x : Block) : List Block → List Block → Type 0 where
  here : {rest : List Block} → Picks x (x ∷ rest) rest
  there : {y : Block} {live rest : List Block} → Picks x live rest → Picks x (y ∷ live) (y ∷ rest)

-- The calls on one arena in their order, with the blocks that are live after them.
pub data History (arena : ℕ) : Buddy → List Block → Type 0 where
  start : History arena (init arena) []
  served :
      {b : Buddy} {live : List Block}
      → History arena b live
      → (size : ℕ) → 0 < size
      → size ≤ max_block
      → (alloc b size).1 ≢ 0
      → History arena (alloc b size).0 (record { address = (alloc b size).1; size = size } ∷ live)
  freed :
      {b : Buddy} {live rest : List Block} {x : Block}
      → History arena b live
      → Picks x live rest
      → History arena (free b x.address x.size) rest

-- A caller may hold each of these blocks.
abbrev AllOwned : Buddy → List Block → Type 0
AllOwned b [] = Unit {0}
AllOwned b (x ∷ rest) = IsOwned b x × AllOwned b rest

abbrev AllOther : Block → List Block → Type 0
AllOther x [] = Unit {0}
AllOther x (y ∷ rest) = IsOther x y × AllOther x rest

abbrev AllDistinct : List Block → Type 0
AllDistinct [] = Unit {0}
AllDistinct (x ∷ rest) = AllOther x rest × AllDistinct rest

abbrev pub AllApartFrom : Block → List Block → Type 0
AllApartFrom x [] = Unit {0}
AllApartFrom x (y ∷ rest) = AreApart x y × AllApartFrom x rest

-- No byte belongs to two of the blocks.
abbrev pub AllApart : List Block → Type 0
AllApart [] = Unit {0}
AllApart (x ∷ rest) = AllApartFrom x rest × AllApart rest

IsOther-sym : (x y : Block) → IsOther x y → IsOther y x
IsOther-sym x y h e q = h (sym e) (sym q)

Picks-IsOwned :
    {x : Block} {live rest : List Block}
    → Picks x live rest
    → (b : Buddy) → AllOwned b live
    → IsOwned b x × AllOwned b rest
Picks-IsOwned here b h = h
Picks-IsOwned (there p) b h = let (own, others) = Picks-IsOwned p b h.1 in (own, (h.0, others))

Picks-IsOther :
    {x : Block} {live rest : List Block}
    → Picks x live rest
    → (y : Block) → AllOther y live
    → IsOther y x × AllOther y rest
Picks-IsOther here y h = h
Picks-IsOther (there p) y h = let (one, others) = Picks-IsOther p y h.1 in (one, (h.0, others))

Picks-AllDistinct :
    {x : Block} {live rest : List Block}
    → Picks x live rest
    → AllDistinct live
    → AllOther x rest × AllDistinct rest
Picks-AllDistinct here h = h
Picks-AllDistinct (there {y} p) h =
    let (other, others) = Picks-IsOther p y h.0 in
    let (apart, distinct) = Picks-AllDistinct p h.1 in
    ((IsOther-sym y _ other, apart), (others, distinct))

freed-AllOwned :
    (b : Buddy) (x : Block) (rest : List Block)
    → IsArena b nothing
    → IsOwned b x
    → AllOwned b rest
    → AllOther x rest
    → AllOwned (free b x.address x.size) rest
freed-AllOwned b x [] a h all other = tt
freed-AllOwned b x (y ∷ rest) a h all other =
    (freed-IsOwned b a x y h all.0 other.0, freed-AllOwned b x rest a h all.1 other.1)

served-AllOwned :
    (b : Buddy) (size : ℕ) (live : List Block)
    → ((y : Block) → IsOwned b y → IsOwned (alloc b size).0 y × IsOther (new_block b size) y)
    → AllOwned b live
    → AllOwned (alloc b size).0 live × AllOther (new_block b size) live
served-AllOwned b size [] keep all = (tt, tt)
served-AllOwned b size (y ∷ live) keep all =
    let (owned, other) = keep y all.0 in
    let (rest, others) = served-AllOwned b size live keep all.1 in ((owned, rest), (other, others))

-- The invariant of a history.
History_lem :
    {arena : ℕ} {b : Buddy} {live : List Block}
    → History arena b live
    → 0 < arena
    → arena + max_block < 2 ^ 64
    → IsArena b nothing × AllOwned b live × AllDistinct live
History_lem {arena} start h k = (init-IsArena arena h k, tt, tt)
History_lem {live = x ∷ live} (served {b} past size pos le ne) h k =
    let (a, owned, distinct) = History_lem past h k in
    let (a', new, keep) = served-IsArena b a size pos le ne in
    let (rest, others) = served-AllOwned b size live keep owned in
    (a', (new, rest), (others, distinct))
History_lem {live = rest} (freed {b} {x = x} past p) h k =
    let (a, owned, distinct) = History_lem past h k in
    let (own, others) = Picks-IsOwned p b owned in
    let (other, distinct') = Picks-AllDistinct p distinct in
    (freed-IsArena b a x own, freed-AllOwned b x rest a own others other, distinct')

owned-AllApart :
    (b : Buddy) (live : List Block)
    → IsArena b nothing
    → AllOwned b live
    → AllDistinct live
    → AllApart live
owned-AllApart b [] a all distinct = tt
owned-AllApart b (x ∷ rest) a all distinct =
    (apart_from rest all.1 distinct.0, owned-AllApart b rest a all.1 distinct.1)
  where
    apart_from : (ys : List Block) → AllOwned b ys → AllOther x ys → AllApartFrom x ys
    apart_from [] owned other = tt
    apart_from (y ∷ ys) owned other =
        (owned_apart b a x y all.0 owned.0 other.0, apart_from ys owned.1 other.1)

-- After any history of successful `v8m_buddy_alloc` calls and `v8m_buddy_free` calls of live blocks, from
-- `v8m_buddy_init` on, no byte belongs to two live blocks.
pub live_blocks_apart :
    (arena : ℕ) (b : Buddy) (live : List Block)
    → History arena b live
    → 0 < arena
    → arena + max_block < 2 ^ 64
    → AllApart live
live_blocks_apart arena b live past h k =
    let (a, owned, distinct) = History_lem past h k in owned-AllApart b live a owned distinct
