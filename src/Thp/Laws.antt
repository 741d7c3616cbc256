-- ===== src/Thp/Laws.antt =====
-- Regions that come often are promoted, and the first one after a long pause is not.
use v8malloc.Prelude.{
  ℕ, ◌+◌, ◌-◌, ◌*◌, ◌^◌, ◌≤◌, ◌<◌, ◌≡◌, refl, ◌∙◌, inl, inr, ◌||◌, leb, ltb, ◌==◌, if◌then◌else◌,
  Bool-cases, arith,
}
use v8malloc.Thp.{Thp, promote, demote, cold_threshold_ticks, fold_ema, decide_and_record}

-- The average is at most the threshold that the next decision compares it with.
pub record IsHot (mhz cold : ℕ) (thp : Thp) : Type 0 where
  pub threshold : (cold_threshold_ticks mhz thp).1 ≡ cold
  pub average : thp.ema_ticks ≤ cold

fold_ema_hot :
    (prev delta cold : ℕ) → cold < 2 ^ 62 → prev ≤ cold → delta ≤ cold → fold_ema prev delta ≤ cold
unfolding fold_ema
fold_ema_hot prev delta cold small a b = ground arith

fold_ema_quiet :
    (prev delta cold : ℕ)
    → prev < 2 ^ 62
    → delta < 2 ^ 62
    → 4 * cold + 3 < delta
    → cold < fold_ema prev delta
unfolding fold_ema
fold_ema_quiet prev delta cold a b c = ground arith

threshold_same :
    (mhz now ema : ℕ) (thp : Thp)
    → (cold_threshold_ticks mhz (record thp { last_alloc_tsc = now; ema_ticks = ema })).1
      ≡ (cold_threshold_ticks mhz thp).1
unfolding cold_threshold_ticks
threshold_same mhz now ema thp = ground arith

cold_threshold_ticks-stable :
    (mhz : ℕ) (thp : Thp)
    → ((cold_threshold_ticks mhz ((cold_threshold_ticks mhz thp).0)).1
        ≡ (cold_threshold_ticks mhz thp).1)
      × ((cold_threshold_ticks mhz thp).0.ema_ticks ≡ thp.ema_ticks)
unfolding cold_threshold_ticks
cold_threshold_ticks-stable mhz thp = ground arith

later_decision :
    (mhz now cold : ℕ) (thp : Thp) (ema : ℕ)
    → IsHot mhz cold thp
    → ema ≤ cold
    → let asked = cold_threshold_ticks mhz (record thp { last_alloc_tsc = now; ema_ticks = ema }) in
      ((if ltb asked.1 ema then demote else promote) ≡ promote) × IsHot mhz cold (asked.0)
later_decision mhz now cold thp ema hot low =
    let same = threshold_same mhz now ema thp ∙ hot.threshold in
    let kept =
      cold_threshold_ticks-stable mhz (record thp { last_alloc_tsc = now; ema_ticks = ema }) in
    (ground arith, record { threshold = kept.0 ∙ same; average = omega arith })

-- With the average at most the threshold, which is below 2^62, a call within the threshold after the last
-- one answers PROMOTE, and the average stays at most the same threshold.
pub frequent_promotes :
    (mhz now cold : ℕ) (thp : Thp)
    → cold < 2 ^ 62
    → IsHot mhz cold thp
    → now ≤ thp.last_alloc_tsc + cold
    → ((decide_and_record mhz now thp).1 ≡ promote)
      × IsHot mhz cold ((decide_and_record mhz now thp).0)
unfolding decide_and_record
frequent_promotes mhz now cold thp small hot soon =
    let low =
      fold_ema_hot thp.ema_ticks (now - thp.last_alloc_tsc) cold small hot.average (omega arith) in
    elim (Bool-cases (thp.last_alloc_tsc == 0 || leb now thp.last_alloc_tsc)) [
      | inl t ↦ rw t (
        refl,
        record {
          threshold = threshold_same mhz now thp.ema_ticks thp ∙ hot.threshold;
          average = hot.average;
        },
      )
      | inr f ↦ rw f (
          later_decision mhz now cold thp (fold_ema thp.ema_ticks (now - thp.last_alloc_tsc)) hot
            low)
    ]

-- After an earlier call, with the average and the clock below 2^62, a call more than four thresholds and
-- three ticks later answers DEMOTE, whatever the average was.
pub quiet_demotes :
    (mhz now : ℕ) (thp : Thp)
    → 0 < thp.last_alloc_tsc
    → thp.ema_ticks < 2 ^ 62
    → now < 2 ^ 62
    → thp.last_alloc_tsc + 4 * (cold_threshold_ticks mhz thp).1 + 3 < now
    → (decide_and_record mhz now thp).1 ≡ demote
unfolding decide_and_record
quiet_demotes mhz now thp seen small word pause =
    let delta = now - thp.last_alloc_tsc in
    let same = threshold_same mhz now (fold_ema thp.ema_ticks delta) thp in
    let high =
      fold_ema_quiet thp.ema_ticks delta ((cold_threshold_ticks mhz thp).1) small (omega arith)
        (omega arith) in
    ground arith
