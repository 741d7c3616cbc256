-- ===== src/CoreCache/Race.antt =====
-- `v8m_core_cache_push` and `v8m_core_cache_pop` of many threads on one stack, as interleavings: each load,
-- each write of a link and each compare-exchange is a step of its own, and the owner of a popped object
-- may overwrite it at any time. The compare-exchange may fail without a reason, as the weak form may.
pub mod Inv
pub mod Steps
pub mod Safety
use v8malloc.Prelude.{
  ℕ, ◌+◌, ◌^◌, ◌≡◌, Bool, true, false, ◌&&◌, Option, none, some, List, [], ◌∷◌, ltb, ◌==◌,
  if◌then◌else◌, update,
}
use v8malloc.Words.{wrap16}
use v8malloc.CoreCache.{tagptr_make, tagptr_ptr, tagptr_tag}

-- Where a thread stands. `old` is its copy of the head, and `seen` how often the head had changed then.
pub data Pc : Type 0 where
  idle : Pc
  -- in push, before the write of the link
  push_loaded : (node old seen : ℕ) → Pc
  -- in push, before the compare-exchange
  push_linked : (node old seen : ℕ) → Pc
  -- in pop, before the read of the link
  pop_loaded : (old seen : ℕ) → Pc
  -- in pop, before the compare-exchange
  pop_read : (old next seen : ℕ) → Pc

-- The head, the first 8 bytes of each object, and the threads. The last three fields are a record of
-- what has happened, which no step of the code reads: how often the head has changed, the nodes that
-- were pushed and not popped, top first, and which thread holds an object.
pub record World : Type 0 where
  pub head : ℕ
  pub mem : ℕ → ℕ
  pub pc : ℕ → Pc
  pub changes : ℕ
  pub pushed : List ℕ
  pub owner : ℕ → Option ℕ

abbrev pub owned_by : Option ℕ → ℕ → Bool
owned_by none i = false
owned_by (some j) i = i == j

abbrev pub below_top : List ℕ → List ℕ
below_top [] = []
below_top (x ∷ rest) = rest

-- The successful compare-exchange of push.
unfoldable pub push_win : World → ℕ → ℕ → ℕ → World
push_win w i node old = record w {
  head = tagptr_make node (wrap16 (tagptr_tag old + 1));
  pc = update w.pc i idle;
  changes = w.changes + 1;
  pushed = node ∷ w.pushed;
  owner = update w.owner node none;
}

-- The successful compare-exchange of pop.
unfoldable pub pop_win : World → ℕ → ℕ → ℕ → World
pop_win w i old next = record w {
  head = tagptr_make next (wrap16 (tagptr_tag old + 1));
  pc = update w.pc i idle;
  changes = w.changes + 1;
  pushed = below_top w.pushed;
  owner = update w.owner (tagptr_ptr old) (some i);
}

abbrev pub goto : World → ℕ → Pc → World
goto w i p = record w { pc = update w.pc i p }

-- The next step of thread `i` from `p`. `win` is false where a compare-exchange fails without a reason.
unfoldable pub advance : World → ℕ → Bool → Pc → World
advance w i win idle = w
advance w i win (push_loaded node old seen) = record (goto w i (push_linked node old seen)) {
  mem = update w.mem node (tagptr_ptr old);
}
advance w i win (push_linked node old seen) =
    if win && (w.head == old)
    then push_win w i node old
    else goto w i (push_loaded node w.head w.changes)
advance w i win (pop_loaded old seen) =
    if tagptr_ptr old == 0
    then goto w i idle
    else goto w i (pop_read old (w.mem (tagptr_ptr old)) seen)
advance w i win (pop_read old next seen) =
    if win && (w.head == old) then pop_win w i old next else goto w i (pop_loaded w.head w.changes)

-- How long ago the copy of the head was made, counted in changes.
abbrev pub is_recent : ℕ → Pc → Bool
is_recent changes idle = true
is_recent changes (push_loaded node old seen) = ltb changes (seen + 2 ^ 16)
is_recent changes (push_linked node old seen) = ltb changes (seen + 2 ^ 16)
is_recent changes (pop_loaded old seen) = ltb changes (seen + 2 ^ 16)
is_recent changes (pop_read old next seen) = ltb changes (seen + 2 ^ 16)

pub data Action : Type 0 where
  -- A thread that does nothing calls push with an object that it holds.
  call_push : (i node : ℕ) → Action
  call_pop : (i : ℕ) → Action
  -- A thread goes on, in time: the head has changed less than 2^16 times since its load.
  go_on : (i : ℕ) (win : Bool) → Action
  -- A thread that does nothing writes to an object that it holds.
  use_object : (i node value : ℕ) → Action

abbrev pub is_idle : Pc → Bool
is_idle idle = true
is_idle p = false

-- `none` where the action is not possible.
unfoldable pub act : World → Action → Option World
act w (call_push i node) =
    if is_idle (w.pc i) && (ltb 0 node && (ltb node (2 ^ 48) && owned_by (w.owner node) i))
    then some (goto w i (push_loaded node w.head w.changes))
    else none
act w (call_pop i) =
    if is_idle (w.pc i) then some (goto w i (pop_loaded w.head w.changes)) else none
act w (go_on i win) = if is_recent w.changes (w.pc i) then some (advance w i win (w.pc i)) else none
act w (use_object i node value) =
    if is_idle (w.pc i) && owned_by (w.owner node) i
    then some (record w { mem = update w.mem node value })
    else none

-- The stack is empty, its word is zero, and threads hold the objects that `owner` says.
unfoldable pub start : (ℕ → Option ℕ) → (ℕ → ℕ) → World
start owner mem = record {
  head = 0;
  mem = mem;
  pc = λ i. idle;
  changes = 0;
  pushed = [];
  owner = owner;
}

-- `w` is reached from the empty stack by possible actions.
pub data Reach (owner : ℕ → Option ℕ) (mem : ℕ → ℕ) : World → Type 0 where
  begin : Reach owner mem (start owner mem)
  next : {w w' : World} → Reach owner mem w → (a : Action) → act w a ≡ some w' → Reach owner mem w'
