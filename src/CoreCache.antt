-- ===== src/CoreCache.antt =====
-- src/v8m_core_cache.h and src/v8m_core_cache.c: for each processor and size class a stack of free
-- objects, linked through their first 8 bytes. The head is a word of 48 address bits and a 16-bit tag.
-- The calls here run alone, so that their compare-exchange succeeds at once; Race lets threads interleave.
pub mod Stack
pub mod Batch
pub mod Race
use v8malloc.Prelude.{
  ℕ, zero, suc, ◌+◌, ◌*◌, ◌/◌, ◌%◌, ◌^◌, Bool, true, false, ◌||◌, Option, none, some, ltb, leb,
  ◌==◌, if◌then◌else◌, update,
}
use v8malloc.Words.{wrap16, wrap32}
use v8malloc.SizeClass.{num_size_classes}

-- V8M_NUMA_MAX_CPUS
abbrev pub numa_max_cpus : ℕ
numa_max_cpus = 4096

-- V8M_STEAL_NO_DONOR
abbrev pub no_donor : ℕ
no_donor = 4294967295

-- The address bits and the tag bits do not overlap, so that `|` is a sum.
unfoldable pub tagptr_make : ℕ → ℕ → ℕ
tagptr_make ptr tag = ptr % 2 ^ 48 + wrap16 tag * 2 ^ 48

unfoldable pub tagptr_ptr : ℕ → ℕ
tagptr_ptr tagged = tagged % 2 ^ 48

unfoldable pub tagptr_tag : ℕ → ℕ
tagptr_tag tagged = wrap16 (tagged / 2 ^ 48)

-- `g_caches`, by processor and class; the first 8 bytes of each object, by address; the donor of each
-- class; and the counter of the calling thread.
pub record State : Type 0 where
  pub stacks : ℕ → ℕ → ℕ
  pub mem : ℕ → ℕ
  pub last_push_cpu : ℕ → ℕ
  pub push_sample_count : ℕ

-- The tables are zero until `init_steal_hints`, which the loader runs first.
unfoldable pub init_steal_hints : State → State
init_steal_hints st = record st {
  last_push_cpu = λ cls. if ltb cls num_size_classes then no_donor else 0;
}

-- A pointer to a cache is the number of its processor.
unfoldable pub for_cpu : ℕ → Option ℕ
for_cpu cpu_id = if leb numa_max_cpus cpu_id then none else some cpu_id

-- The winning round of the loop: the tail is linked to the old top, and the head becomes the new one.
unfoldable pub link_chain : State → ℕ → ℕ → ℕ → ℕ → State
unfolding tagptr_make tagptr_ptr tagptr_tag
link_chain st cpu cls head tail =
    let old = st.stacks cpu cls in
    record st {
      mem = update st.mem tail (tagptr_ptr old);
      stacks =
          update st.stacks cpu
            (update (st.stacks cpu) cls (tagptr_make head (wrap16 (tagptr_tag old + 1))));
    }

unfoldable pub push : State → Option ℕ → ℕ → ℕ → State × Bool
push st none cls node = (st, false)
push st (some cpu) cls node =
    if node == 0 || leb num_size_classes cls
    then (st, false)
    else (link_chain st cpu cls node node, true)

unfoldable pub take_top : State → ℕ → ℕ → State × ℕ
unfolding tagptr_make tagptr_ptr tagptr_tag
take_top st cpu cls =
    let old = st.stacks cpu cls in
    let node = tagptr_ptr old in
    let new_head = tagptr_make (st.mem node) (wrap16 (tagptr_tag old + 1)) in
    if node == 0
    then (st, 0)
    else (record st { stacks = update st.stacks cpu (update (st.stacks cpu) cls new_head) }, node)

unfoldable pub pop : State → Option ℕ → ℕ → State × ℕ
pop st none cls = (st, 0)
pop st (some cpu) cls = if leb num_size_classes cls then (st, 0) else take_top st cpu cls

-- One push in 64 of a thread makes its processor the donor; `current` is `v8m_numa_current_cpu()`.
unfoldable pub publish_donor : ℕ → State → ℕ → State
publish_donor current st cls = record st {
  push_sample_count = wrap32 (st.push_sample_count + 1);
  last_push_cpu =
      if (st.push_sample_count % 64 == 0)
      then (if ltb current numa_max_cpus
          then update st.last_push_cpu cls current
          else st.last_push_cpu)
      else st.last_push_cpu;
}

unfoldable pub push_batch : ℕ → State → Option ℕ → ℕ → ℕ → ℕ → State × Bool
push_batch current st none cls head tail = (st, false)
push_batch current st (some cpu) cls head tail =
    if head == 0 || tail == 0 || leb num_size_classes cls
    then (st, false)
    else (publish_donor current (link_chain st cpu cls head tail) cls, true)

-- The popped chain so far: its first and last node and its length.
pub record Popped : Type 0 where
  pub chain_head : ℕ
  pub chain_tail : ℕ
  pub count : ℕ

unfoldable pub append_node : State → Popped → ℕ → State × Popped
append_node st c node =
    if c.chain_head == 0
    then (st, record { chain_head = node; chain_tail = node; count = c.count + 1 })
    else (
      record st { mem = update st.mem c.chain_tail node },
      record c { chain_tail = node; count = c.count + 1 },
    )

-- The loop of `v8m_core_cache_pop_batch`, with the rounds that are left.
unfoldable pub pop_loop : ℕ → State → ℕ → ℕ → Popped → State × Popped
pop_loop zero st cpu cls c = (st, c)
pop_loop (suc rounds) st cpu cls c =
    let (st', node) = pop st (some cpu) cls in
    let (st'', c') = append_node st' c node in
    let rest = pop_loop rounds st'' cpu cls c' in if node == 0 then (st', c) else rest

unfoldable pub terminate : State → Popped → State
terminate st c = if ltb 0 c.count then record st { mem = update st.mem c.chain_tail 0 } else st

abbrev pub nothing : Popped
nothing = record { chain_head = 0; chain_tail = 0; count = 0 }

-- The two out-pointers are not NULL.
unfoldable pub pop_batch : State → Option ℕ → ℕ → ℕ → State × Popped
pop_batch st none cls max = (st, nothing)
pop_batch st (some cpu) cls max =
    let (st', c) = pop_loop max st cpu cls nothing in
    if leb num_size_classes cls || max == 0 then (st, nothing) else (terminate st' c, c)

unfoldable pub steal_batch : State → ℕ → ℕ → ℕ → State × Popped
steal_batch st cls exclude_cpu max =
    let donor = st.last_push_cpu cls in
    if leb num_size_classes cls || max == 0
    then (st, nothing)
    else if (donor == no_donor) || (donor == exclude_cpu) || leb numa_max_cpus donor
    then (st, nothing)
    else pop_batch st (some donor) cls max
