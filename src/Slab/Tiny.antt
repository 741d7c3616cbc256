-- ===== src/Slab/Tiny.antt =====
-- src/v8m_slab_tiny.c: a page of objects of 8 to 64 bytes, with a bitmap of 128 words of 64 bits. The
-- page stands at the address `page`; the poisoning of debug mode is left out.
pub mod Bitmap
pub mod Inv
pub mod Init
pub mod Laws
use v8malloc.Prelude.{
  ℕ, zero, suc, ◌+◌, ◌-◌, ◌*◌, ◌/◌, ◌%◌, ◌^◌, Bool, true, false, not, Option, none, some, List, ltb,
  leb, ◌==◌, if◌then◌else◌, get_or, set, replicate,
}
use v8malloc.Words.{wrap16, wrap32, wrap64, sub32, sub64, set_bit, clear_bit, invert, ctz}
use v8malloc.SizeClass.{Table, size_class_size}

abbrev pub data_area : ℕ
data_area = 65536 - 2048

abbrev pub bits_per_word : ℕ
bits_per_word = 64

abbrev pub bitmap_words : ℕ
bitmap_words = 128

abbrev pub bitmap_capacity_bits : ℕ
bitmap_capacity_bits = 8192

abbrev pub full_word : ℕ
full_word = 2 ^ 64 - 1

pub record TinyMeta : Type 0 where
  pub magic : ℕ
  pub size_class : ℕ
  pub object_size : ℕ
  pub capacity : ℕ
  pub used_count : ℕ
  pub owner_thread : ℕ
  pub free_list_head : ℕ
  pub next : ℕ
  pub arena_id : ℕ
  pub owner_cpu : ℕ
  pub search_hint : ℕ
  pub bitmap : List ℕ

-- `slab_data`
abbrev pub slab_data : ℕ → ℕ
slab_data page = wrap64 (page + 2048)

unfoldable pub capacity_for : ℕ → ℕ
capacity_for object_size =
    let capacity = data_area / object_size in
    if object_size == 0
    then 0
    else if ltb bitmap_capacity_bits capacity
    then bitmap_capacity_bits
    else wrap32 capacity

-- `bitmap[slot / 64] |= 1 << (slot % 64)`
unfoldable pub mark_slot : List ℕ → ℕ → List ℕ
mark_slot bitmap slot =
    set bitmap (slot / bits_per_word)
      (set_bit (get_or bitmap (slot / bits_per_word) 0) (slot % bits_per_word))

-- `bitmap[slot / 64] &= ~(1 << (slot % 64))`
unfoldable pub clear_slot : List ℕ → ℕ → List ℕ
clear_slot bitmap slot =
    set bitmap (slot / bits_per_word)
      (clear_bit (get_or bitmap (slot / bits_per_word) 0) (slot % bits_per_word))

-- The loop that marks the slots from `slot` on, `k` of them.
unfoldable pub mark_from : ℕ → ℕ → List ℕ → List ℕ
mark_from zero slot bitmap = bitmap
mark_from (suc k) slot bitmap = mark_from k (suc slot) (mark_slot bitmap slot)

unfoldable pub init : Table → ℕ → ℕ → ℕ → TinyMeta
init table size_class owner_thread current_cpu =
    let object_size = wrap16 (size_class_size table size_class) in
    let capacity = capacity_for object_size in
    record {
      magic = 0x76386D616C6C6F63;
      size_class = wrap16 size_class;
      object_size = object_size;
      capacity = capacity;
      used_count = 0;
      owner_thread = owner_thread;
      free_list_head = 0;
      next = 0;
      arena_id = 0;
      owner_cpu = current_cpu;
      search_hint = 0;
      bitmap = mark_from (bitmap_capacity_bits - capacity) capacity (replicate bitmap_words 0);
    }

-- The first of the `k` words from `word` on that is not full.
unfoldable pub find_word : ℕ → List ℕ → ℕ → Option ℕ
find_word zero bitmap word = none
find_word (suc k) bitmap word =
    let rest = find_word k bitmap (suc word) in
    if not (get_or bitmap word 0 == full_word) then some word else rest

-- The lowest clear bit of a word.
abbrev pub clear_index : TinyMeta → ℕ → ℕ
clear_index meta word = ctz 64 (invert 64 (get_or meta.bitmap word 0))

unfoldable pub claim_slot : ℕ → TinyMeta → ℕ → ℕ → TinyMeta × ℕ
claim_slot page meta word bit = (
  record meta {
    used_count = wrap32 (meta.used_count + 1);
    search_hint = word;
    bitmap = set meta.bitmap word (set_bit (get_or meta.bitmap word 0) bit);
  },
  wrap64 (slab_data page + (word * bits_per_word + bit) * meta.object_size),
)

unfoldable pub alloc : ℕ → TinyMeta → TinyMeta × ℕ
alloc page meta =
    let start = wrap32 meta.search_hint in
    elim (find_word (bitmap_words - start) meta.bitmap start) [
      | some word ↦ claim_slot page meta word (clear_index meta word)
      | none ↦ elim (find_word start meta.bitmap 0) [
        | some word ↦ claim_slot page meta word (clear_index meta word)
        | none ↦ (meta, 0)
      ]
    ]

-- The result says whether the page has become empty.
unfoldable pub free : ℕ → TinyMeta → ℕ → TinyMeta × Bool
free page meta obj =
    let slot = wrap32 (sub64 obj (slab_data page) / meta.object_size) in
    let word = slot / bits_per_word in
    (
      record meta {
        used_count = sub32 meta.used_count 1;
        search_hint = if ltb word meta.search_hint then word else meta.search_hint;
        bitmap = clear_slot meta.bitmap slot;
      },
      meta.used_count == 1,
    )

unfoldable pub is_full : TinyMeta → Bool
is_full meta = meta.used_count == meta.capacity

unfoldable pub is_empty : TinyMeta → Bool
is_empty meta = meta.used_count == 0
