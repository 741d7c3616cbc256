-- ===== src/Config/Laws.antt =====
-- The flag of the fast paths follows the options.
use v8malloc.Prelude.{
  ℕ, ◌≡◌, ◌≢◌, refl, sym, subst₂, Bool, true, false, not, ◌&&◌, ◌||◌, Option, List, [], ◌∷◌, inl,
  inr, arith, leb, ◌==◌, Bool-cases, update, update_ne,
}
use v8malloc.Config.{
  Config, Parsed, opt_debug, opt_lifetime_tracking, opt_count, recompute_fast_path_flag, init, set,
  get, fast_path_ok,
}

-- The fast path is open exactly where neither option asks for the slow one.
abbrev pub IsFlagged : Config → Type 0
IsFlagged st = fast_path_ok st ≡ ((get st opt_debug == 0) && (get st opt_lifetime_tracking == 0))

recompute-IsFlagged : (st : Config) → IsFlagged (recompute_fast_path_flag st)
unfolding recompute_fast_path_flag get
recompute-IsFlagged st = de_morgan (st.values 5 == 0) (st.values 11 == 0)
  where
    de_morgan : (a b : Bool) → not (not a || not b) ≡ (a && b)
    de_morgan true true = refl
    de_morgan true false = refl
    de_morgan false b = refl

-- Another option is stored.
stored-IsFlagged :
    (st : Config) (opt value : ℕ)
    → opt ≢ opt_debug
    → opt ≢ opt_lifetime_tracking
    → IsFlagged st
    → IsFlagged (record st { values = update st.values opt value })
unfolding get
stored-IsFlagged st opt value n m v =
    subst₂ (λ (a b : ℕ). fast_path_ok st ≡ ((a == 0) && (b == 0)))
      (sym (update_ne st.values opt value opt_debug (λ e. n (sym e))))
      (sym (update_ne st.values opt value opt_lifetime_tracking (λ e. m (sym e)))) v

set-IsFlagged : (st : Config) (opt value : ℕ) → IsFlagged st → IsFlagged (set st opt value).0
unfolding set
set-IsFlagged st opt value v =
    let stored = record st { values = update st.values opt value } in
    elim (Bool-cases (leb opt_count opt)) [
      | inl t ↦ rw t v
      | inr f ↦ elim (Bool-cases ((opt == opt_debug) || (opt == opt_lifetime_tracking))) [
        | inl t ↦ rw (f, t) (recompute-IsFlagged stored)
        | inr n ↦
            rw (f, n)
              (stored-IsFlagged st opt value (λ e. ground (arith, e)) (λ e. ground (arith, e)) v)
      ]
    ]

-- The options after a history of `v8m_config_set` calls, the last one first.
unfoldable pub after_sets : Config → List (ℕ × ℕ) → Config
after_sets st [] = st
after_sets st ((opt, value) ∷ earlier) = (set (after_sets st earlier) opt value).0

-- After `v8m_config_init` and any history of `v8m_config_set` calls, `v8m_config_fast_path_ok` answers true
-- exactly where `v8m_config_get` of V8M_OPT_DEBUG and of V8M_OPT_LIFETIME_TRACKING are both 0.
pub flag_follows_options :
    (strtoll : List ℕ → Parsed) (getenv : ℕ → Option (List ℕ)) (st : Config) (sets : List (ℕ × ℕ))
    → IsFlagged (after_sets (init strtoll getenv st) sets)
unfolding after_sets init
flag_follows_options strtoll getenv st [] = recompute-IsFlagged _
flag_follows_options strtoll getenv st ((opt, value) ∷ earlier) =
    set-IsFlagged (after_sets (init strtoll getenv st) earlier) opt value
      (flag_follows_options strtoll getenv st earlier)
