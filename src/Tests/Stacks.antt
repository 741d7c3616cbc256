-- ===== src/Tests/Stacks.antt =====
-- Runs of the stacks of the core caches, alone and with two threads.
use v8malloc.Prelude.{
  ℕ, ◌≡◌, refl, true, Option, none, some, [], ◌∷◌, arith, ◌==◌, if◌then◌else◌, update,
}
use v8malloc.CoreCache.{
  State, tagptr_make, tagptr_ptr, tagptr_tag, init_steal_hints, link_chain, pop, push_batch,
  pop_batch, steal_batch, publish_donor, pop_loop, append_node, terminate, take_top,
}
use v8malloc.CoreCache.Stack.{Holds}
use v8malloc.CoreCache.Batch.{IsTaken, pop_batch-takes, push_batch-Holds}
use v8malloc.CoreCache.Race.{
  World, idle, pop_read, pop_loaded, push_loaded, push_linked, call_push, call_pop, go_on, act,
  advance, push_win, start, Reach, begin, next,
}
use v8malloc.CoreCache.Race.Inv.{IsSound}
use v8malloc.CoreCache.Race.Steps.{Reach-IsSound}
use v8malloc.CoreCache.Race.Safety.{pop_wins_top}

abbrev blank : State
blank = record {
  stacks = λ cpu cls. 0;
  mem = λ a. 0;
  last_push_cpu = λ cls. 0;
  push_sample_count = 0;
}

blank-Holds : Holds blank 3 5 []
unfolding tagptr_ptr
blank-Holds = record { chain = refl; distinct = tt }

-- The objects 4096, 8192 and 12288 are a chain.
abbrev chained : State
chained = record blank { mem = update (update (λ a. 0) 4096 8192) 8192 12288 }

chained-Holds : Holds chained 3 5 []
unfolding tagptr_ptr
chained-Holds = record { chain = refl; distinct = tt }

push_batch-Holds_example :
    let r = push_batch 7 chained (some 3) 5 4096 12288 in
    (r.1 ≡ true) × Holds (r.0) 3 5 (4096 ∷ 8192 ∷ 12288 ∷ [])
unfolding update
push_batch-Holds_example =
    push_batch-Holds 7 chained 3 5 4096 12288 (4096 ∷ 8192 ∷ []) [] (omega arith) (omega arith)
      (omega arith) (omega arith) chained-Holds

abbrev filled : State
filled = (push_batch 7 chained (some 3) 5 4096 12288).0

pop_batch-takes_example :
    let (st', c) = pop_batch filled (some 3) 5 2 in
    IsTaken 3 5 st' c (4096 ∷ 8192 ∷ []) (12288 ∷ []) 8192
pop_batch-takes_example =
    pop_batch-takes filled 3 5 2 4096 (8192 ∷ 12288 ∷ []) (omega arith) (omega arith)
      push_batch-Holds_example.1

-- A thief on processor 4 gets the chain from the donor, processor 7 having pushed last.
abbrev donated : State
donated = (push_batch 7 (init_steal_hints chained) (some 7) 5 4096 12288).0

stolen : (steal_batch donated 5 4 2).1 ≡ record { chain_head = 4096; chain_tail = 8192; count = 2 }
unfolding steal_batch push_batch init_steal_hints link_chain publish_donor pop_batch pop_loop pop
    append_node terminate take_top update tagptr_make
stolen = refl

abbrev held_by_zero : ℕ → Option ℕ
held_by_zero a = if a == 4096 then some 0 else none

abbrev zeroed : ℕ → ℕ
zeroed a = 0

-- Thread 0 is about to push the object 4096.
abbrev linked : World
linked = record (start held_by_zero zeroed) {
  mem = update zeroed 4096 0;
  pc = update (update (λ i. idle) 0 (push_loaded 4096 0 0)) 0 (push_linked 4096 0 0);
}

Reach-linked : Reach held_by_zero zeroed linked
unfolding act advance start tagptr_ptr update
Reach-linked = next (next begin (call_push 0 4096) refl) (go_on 0 true) refl

abbrev pushed_head : ℕ
pushed_head = 281474976714752

-- Thread 0 has pushed, and thread 1 is about to pop.
abbrev read : World
read = record linked {
  head = pushed_head;
  pc =
      update (update (update linked.pc 0 idle) 1 (pop_loaded pushed_head 1)) 1
        (pop_read pushed_head 0 1);
  changes = 1;
  pushed = 4096 ∷ [];
  owner = update held_by_zero 4096 none;
}

Reach-read : Reach held_by_zero zeroed read
unfolding act advance start tagptr_ptr tagptr_tag tagptr_make push_win update
Reach-read =
    next (next (next Reach-linked (go_on 0 true) refl) (call_pop 1) refl) (go_on 1 true) refl

Reach-IsSound_example : IsSound read
Reach-IsSound_example = Reach-IsSound held_by_zero zeroed read Reach-read

pop_wins_top_example :
    (w' : World) × (act read (go_on 1 true) ≡ some w')
    × (read.pushed ≡ tagptr_ptr pushed_head ∷ w'.pushed)
    × (read.owner (tagptr_ptr pushed_head) ≡ none)
    × (w'.owner (tagptr_ptr pushed_head) ≡ some 1)
unfolding update
pop_wins_top_example =
    pop_wins_top held_by_zero zeroed read 1 pushed_head 0 1 Reach-read refl (omega arith) refl
