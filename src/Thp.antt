-- ===== src/Thp.antt =====
-- src/v8m_thp.c: whether a new huge page region is advised as a huge page, by how often they come.
pub mod Laws
use v8malloc.Prelude.{ℕ, ◌+◌, ◌-◌, ◌*◌, ◌/◌, ◌^◌, Bool, ◌||◌, ltb, leb, ◌==◌, if◌then◌else◌}
use v8malloc.Words.{wrap64}

pub data Advice : Type 0 where
  promote : Advice
  demote : Advice

-- The counters of the file, all of 64 bits.
pub record Thp : Type 0 where
  pub last_alloc_tsc : ℕ
  pub ema_ticks : ℕ
  pub threshold_ticks : ℕ
  pub promote_calls : ℕ
  pub demote_calls : ℕ
  pub age_demote_calls : ℕ

-- `mhz` is what `v8m_arch_tsc_frequency_mhz` returns; the result is kept for the next call.
unfoldable pub cold_threshold_ticks : ℕ → Thp → Thp × ℕ
cold_threshold_ticks mhz thp =
    let rate = if mhz == 0 then 1000 else mhz in
    let ticks = wrap64 (rate * 1000000) in
    if thp.threshold_ticks == 0
    then (record thp { threshold_ticks = ticks }, ticks)
    else (thp, thp.threshold_ticks)

-- The moving average, `(3 * old + delta) / 4` in 64 bits; the first delta stands for itself.
unfoldable pub fold_ema : ℕ → ℕ → ℕ
fold_ema prev delta = if prev == 0 then delta else wrap64 (prev * 3 + delta) / 4

-- `now` is what `v8m_arch_rdtsc` returns.
unfoldable pub decide_and_record : ℕ → ℕ → Thp → Thp × Advice
decide_and_record mhz now thp =
    let last = thp.last_alloc_tsc in
    let ema = fold_ema thp.ema_ticks (now - last) in
    let averaged = record thp { last_alloc_tsc = now; ema_ticks = ema } in
    let asked = cold_threshold_ticks mhz averaged in
    if last == 0 || leb now last
    then (record thp { last_alloc_tsc = now }, promote)
    else (asked.0, if ltb asked.1 ema then demote else promote)

unfoldable pub record_promote : Thp → Thp
record_promote thp = record thp { promote_calls = wrap64 (thp.promote_calls + 1) }

unfoldable pub record_demote : Thp → Thp
record_demote thp = record thp { demote_calls = wrap64 (thp.demote_calls + 1) }

unfoldable pub record_age_demote : Thp → Thp
record_age_demote thp = record thp { age_demote_calls = wrap64 (thp.age_demote_calls + 1) }

unfoldable pub test_inject : ℕ → ℕ → Thp → Thp
test_inject cold ema thp = record thp {
  last_alloc_tsc = 0;
  ema_ticks = ema;
  threshold_ticks = cold;
}
