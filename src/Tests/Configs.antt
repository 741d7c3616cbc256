-- ===== src/Tests/Configs.antt =====
-- Runs of the options.
use v8malloc.Prelude.{ℕ, true, false, Option, none, some, List, [], ◌∷◌, ◌==◌, if◌then◌else◌}
use v8malloc.Config.{Config, Parsed, init}
use v8malloc.Config.Laws.{IsFlagged, after_sets, flag_follows_options}

-- A `strtoll` for one digit.
abbrev one_digit : List ℕ → Parsed
one_digit [] = record { value = 0; rest = []; some_digit = false; out_of_range = false }
one_digit (c ∷ rest) = record { value = c; rest = rest; some_digit = true; out_of_range = false }

-- V8M_DEBUG is set to 1.
abbrev debug_on : ℕ → Option (List ℕ)
debug_on opt = if opt == 5 then some (1 ∷ []) else none

abbrev zeros : Config
zeros = record { values = λ opt. 0; fast_path_disabled = false }

abbrev debug_off : List (ℕ × ℕ)
debug_off = (5, 0) ∷ (2, 64) ∷ []

flag_follows_options_example : IsFlagged (after_sets (init one_digit debug_on zeros) debug_off)
flag_follows_options_example = flag_follows_options one_digit debug_on zeros debug_off
