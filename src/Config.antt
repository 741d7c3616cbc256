-- ===== src/Config.antt =====
-- src/v8m_config.h and src/v8m_config.c: the options, by number, and the flag that the fast paths read. A
-- value is a 64-bit word. The environment and `strtoll` are arguments.
pub mod Laws
use v8malloc.Prelude.{
  ℕ, zero, suc, ◌+◌, Bool, true, false, not, ◌&&◌, ◌||◌, Option, none, some, List, [], ◌∷◌, ltb,
  leb, ◌==◌, if◌then◌else◌, get_or, update,
}

-- V8M_OPT_DEBUG, V8M_OPT_LIFETIME_TRACKING and V8M_OPT_COUNT
abbrev pub opt_debug : ℕ
opt_debug = 5

abbrev pub opt_lifetime_tracking : ℕ
opt_lifetime_tracking = 11

abbrev pub opt_count : ℕ
opt_count = 12

-- `v8m_config_defaults`
unfoldable pub defaults : List ℕ
defaults = 0 ∷ 10 ∷ 256 ∷ 1 ∷ 1 ∷ 0 ∷ 0 ∷ 25 ∷ 1024 ∷ 0 ∷ 0 ∷ 0 ∷ []

pub record Config : Type 0 where
  pub values : ℕ → ℕ
  pub fast_path_disabled : Bool

unfoldable pub recompute_fast_path_flag : Config → Config
recompute_fast_path_flag st = record st {
  fast_path_disabled = not (st.values opt_debug == 0) || not (st.values opt_lifetime_tracking == 0);
}

-- What `strtoll` answers for a text: the value, the text behind it, whether any digit was read, and whether
-- the value was out of range.
pub record Parsed : Type 0 where
  pub value : ℕ
  pub rest : List ℕ
  pub some_digit : Bool
  pub out_of_range : Bool

abbrev is_blank : List ℕ → Bool
is_blank [] = true
is_blank (c ∷ rest) = false

-- A `long long` is an `int64_t` here, so that the last test of the code never fails.
unfoldable pub parse_int64 : (List ℕ → Parsed) → Option (List ℕ) → Option ℕ
parse_int64 strtoll none = none
parse_int64 strtoll (some text) =
    let p = strtoll text in
    if is_blank text
    then none
    else if not p.some_digit || not (is_blank p.rest)
    then none
    else if p.out_of_range
    then none
    else some p.value

abbrev value_or : Option ℕ → ℕ → ℕ
value_or none default_value = default_value
value_or (some value) default_value = value

-- The options from `opt` on, `k` of them; `getenv` has the text of each option's variable.
unfoldable pub init_from : (List ℕ → Parsed) → (ℕ → Option (List ℕ)) → ℕ → ℕ → (ℕ → ℕ) → ℕ → ℕ
init_from strtoll getenv zero opt values = values
init_from strtoll getenv (suc k) opt values =
    init_from strtoll getenv k (suc opt)
      (update values opt (value_or (parse_int64 strtoll (getenv opt)) (get_or defaults opt 0)))

unfoldable pub init : (List ℕ → Parsed) → (ℕ → Option (List ℕ)) → Config → Config
init strtoll getenv st =
    recompute_fast_path_flag (record st { values = init_from strtoll getenv opt_count 0 st.values })

-- Whether the option exists.
unfoldable pub set : Config → ℕ → ℕ → Config × Bool
set st opt value =
    let stored = record st { values = update st.values opt value } in
    if leb opt_count opt
    then (st, false)
    else if opt == opt_debug || opt == opt_lifetime_tracking
    then (recompute_fast_path_flag stored, true)
    else (stored, true)

unfoldable pub get : Config → ℕ → ℕ
get st opt = if leb opt_count opt then 0 else st.values opt

abbrev pub fast_path_ok : Config → Bool
fast_path_ok st = not st.fast_path_disabled
