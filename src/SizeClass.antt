-- ===== src/SizeClass.antt =====
-- src/v8m_size_class.h and src/v8m_size_class.c: the map from request sizes to size classes, the
-- table of class sizes and its hot reload.
pub mod Fit
use v8malloc.Prelude.{
  ℕ, ◌+◌, ◌-◌, ◌*◌, ◌/◌, ◌%◌, ◌^◌, Option, none, some, List, [], ◌∷◌, get_or, leb, ltb, ◌==◌,
  if◌then◌else◌,
}
use v8malloc.Words.{wrap32, add32, sub32, msb}

abbrev pub small_first_class : ℕ
small_first_class = 8

abbrev pub medium_first_class : ℕ
medium_first_class = 32

abbrev pub large_last_class : ℕ
large_last_class = 40

abbrev pub large_max_size : ℕ
large_max_size = 2097152

abbrev pub num_size_classes : ℕ
num_size_classes = 41

-- UINT32_MAX
abbrev pub class_huge : ℕ
class_huge = 4294967295

abbrev pub Table : Type 0
Table = List ℕ

abbrev pub class_to_size : Table
class_to_size =
    8 ∷ 16 ∷ 24 ∷ 32 ∷ 40 ∷ 48 ∷ 56 ∷ 64 ∷ 80 ∷ 96 ∷ 112 ∷ 128 ∷ 160 ∷ 192 ∷ 224 ∷ 256 ∷ 320 ∷ 384
    ∷ 448 ∷ 512 ∷ 640 ∷ 768 ∷ 896 ∷ 1024 ∷ 1280 ∷ 1536 ∷ 1792 ∷ 2048 ∷ 2560 ∷ 3072 ∷ 3584 ∷ 4096
    ∷ 8192 ∷ 16384 ∷ 32768 ∷ 65536 ∷ 131072 ∷ 262144 ∷ 524288 ∷ 1048576 ∷ 2097152 ∷ []

-- `v8m_size_class_size` under the active table. Callers index below the table's length.
unfoldable pub size_class_size : Table → ℕ → ℕ
size_class_size table cls = get_or table cls 0

-- The atomic exchange: the new active table, and the one before. `none` is a NULL argument.
unfoldable pub install_table : Option Table → Table → Table × Table
install_table none active = (class_to_size, active)
install_table (some new_table) active = (new_table, active)

tiny_class : ℕ → ℕ
tiny_class req =
    let coerced = req + (if req == 0 then 1 else 0) in wrap32 ((coerced + 7) / 2 ^ 3 - 1)

medium_class : ℕ → ℕ
medium_class req =
    let adjusted = req - 1 in
    let cls = add32 medium_first_class (sub32 (msb 64 adjusted) 12) in
    if ltb large_last_class cls then class_huge else cls

small_class : ℕ → ℕ
small_class req =
    let adjusted = req - 1 in
    let m = msb 64 adjusted in
    let group = sub32 m 6 in
    let sub = adjusted / 2 ^ (m - 2) % 4 in
    add32 (add32 small_first_class (wrap32 (group * 2 ^ 2))) sub

unfoldable pub size_class : ℕ → ℕ
unfolding tiny_class medium_class small_class
size_class req =
    if leb req 64
    then tiny_class req
    else if ltb 4096 req
    then medium_class req
    else small_class req
