-- ===== src/Slab/Small.antt =====
-- src/v8m_slab_small.c: a page of objects of 80 bytes to 4 KiB, with a free list whose links stand in the
-- first 8 bytes of the free objects. The memory maps the address of an object to the pointer there; two
-- objects of a page do not overlap. The page stands at the address `page`; the poisoning of debug mode
-- is left out.
pub mod Laws
pub mod Init
use v8malloc.Prelude.{
  ℕ, zero, suc, ◌+◌, ◌-◌, ◌*◌, ◌/◌, ◌%◌, ◌^◌, Bool, true, false, ltb, leb, ◌==◌, if◌then◌else◌,
}
use v8malloc.Words.{wrap16, wrap32, wrap64, sub32}
use v8malloc.SizeClass.{Table, size_class_size}
use v8malloc.Slab.{page_size, slab_header_size, magic_word}

-- The common prefix of the page metadata.
pub record SmallMeta : Type 0 where
  pub magic : ℕ
  pub size_class : ℕ
  pub object_size : ℕ
  pub capacity : ℕ
  pub used_count : ℕ
  pub owner_thread : ℕ
  pub free_list_head : ℕ
  pub next : ℕ
  pub arena_id : ℕ
  pub owner_cpu : ℕ

abbrev pub Memory : Type 0
Memory = ℕ → ℕ

-- `*(void **)addr = value`
unfoldable pub store : Memory → ℕ → ℕ → Memory
store mem addr value a = if a == addr then value else mem a

unfoldable pub data_offset : ℕ → ℕ
data_offset object_size = if ltb slab_header_size object_size then object_size else slab_header_size

unfoldable pub capacity_for : ℕ → ℕ
capacity_for object_size =
    let offset = data_offset object_size in
    if ltb object_size 8
    then 0
    else if leb page_size offset
    then 0
    else wrap32 ((page_size - offset) / object_size)

abbrev pub slab_data : ℕ → ℕ → ℕ
slab_data page object_size = wrap64 (page + data_offset object_size)

-- The loop that links the slots below `i` in front of `head`, from the last one down.
unfoldable pub link_slots : ℕ → ℕ → ℕ → Memory → ℕ → Memory × ℕ
link_slots zero area object_size mem head = (mem, head)
link_slots (suc slot) area object_size mem head =
    let obj = wrap64 (area + slot * object_size) in
    link_slots slot area object_size (store mem obj head) obj

unfoldable pub init : Table → ℕ → Memory → ℕ → ℕ → ℕ → Memory × SmallMeta
init table page mem size_class owner_thread current_cpu =
    let object_size = wrap16 (size_class_size table size_class) in
    let capacity = capacity_for object_size in
    let (linked, head) = link_slots capacity (slab_data page object_size) object_size mem 0 in
    (
      linked,
      record {
        magic = magic_word;
        size_class = wrap16 size_class;
        object_size = object_size;
        capacity = capacity;
        used_count = 0;
        owner_thread = owner_thread;
        free_list_head = head;
        next = 0;
        arena_id = 0;
        owner_cpu = current_cpu;
      },
    )

-- The memory is only read.
unfoldable pub alloc : Memory → SmallMeta → SmallMeta × ℕ
alloc mem meta =
    let head = meta.free_list_head in
    if head == 0 then (meta, 0) else (
      record meta { free_list_head = mem head; used_count = wrap32 (meta.used_count + 1) },
      head,
    )

-- The result says whether the page has become empty.
unfoldable pub free : Memory → SmallMeta → ℕ → Memory × SmallMeta × Bool
free mem meta obj = (
  store mem obj meta.free_list_head,
  record meta { free_list_head = obj; used_count = sub32 meta.used_count 1 },
  meta.used_count == 1,
)

unfoldable pub is_full : SmallMeta → Bool
is_full meta = meta.used_count == meta.capacity

unfoldable pub is_empty : SmallMeta → Bool
is_empty meta = meta.used_count == 0
