-- ===== src/Refill.antt =====
-- src/v8m_refill_controller.c: the batch size of the next refill, from a moving average of the demand.
pub mod Laws
use v8malloc.Prelude.{
  ℕ, ◌+◌, ◌-◌, ◌*◌, ◌/◌, ◌^◌, Bool, true, false, not, ◌&&◌, ◌||◌, Option, none, some, List, ltb,
  leb, ◌==◌, if◌then◌else◌, replicate, get_or, set,
}
use v8malloc.Words.{wrap64, wrap32}
use v8malloc.SizeClass.{num_size_classes}

abbrev pub batch_min : ℕ
batch_min = 8

abbrev pub batch_max : ℕ
batch_max = 64

abbrev pub target_hold_micros : ℕ
target_hold_micros = 100

pub record ClassState : Type 0 where
  pub ema_demand : ℕ
  pub batch_size : ℕ
  pub last_refill_tsc : ℕ

-- `per_class`, one state for each size class.
abbrev pub Controller : Type 0
Controller = List ClassState

abbrev pub fresh : ClassState
fresh = record { ema_demand = 0; batch_size = batch_min; last_refill_tsc = 0 }

unfoldable pub init : Option Controller → Option Controller
init none = none
init (some ctrl) = some (replicate num_size_classes fresh)

unfoldable pub set_last_refill_tsc : Option Controller → ℕ → ℕ → Option Controller
set_last_refill_tsc none cls tsc = none
set_last_refill_tsc (some ctrl) cls tsc =
    if leb num_size_classes cls
    then some ctrl
    else some (set ctrl cls (record (get_or ctrl cls fresh) { last_refill_tsc = tsc }))

-- `mhz` is what `v8m_arch_tsc_frequency_mhz` returns; the cache of the result is left out.
unfoldable pub ticks_per_micro : ℕ → ℕ
ticks_per_micro mhz = if mhz == 0 then 1000 else mhz

-- The moving average, `(3 * old + demand) / 4` in 64 bits, cut to 32.
unfoldable pub next_ema : ClassState → ℕ → ℕ
next_ema state demand = wrap32 (wrap64 (3 * state.ema_demand + demand) / 2 ^ 2)

unfoldable pub elapsed_ticks : ClassState → ℕ → ℕ
elapsed_ticks state now =
    let last = state.last_refill_tsc in if last == 0 || leb now last then 0 else now - last

unfoldable pub clamp_batch : ℕ → ℕ
clamp_batch batch =
    let low = if ltb batch batch_min then batch_min else batch in
    if ltb batch_max low then batch_max else low

-- One update of a class: `now` is what `v8m_arch_rdtsc` returns.
unfoldable pub step : ℕ → ClassState → ℕ → ℕ → ClassState
unfolding ticks_per_micro next_ema elapsed_ticks clamp_batch
step mhz state now demand =
    let elapsed = elapsed_ticks state now in
    let ema = next_ema state demand in
    let target_ticks = wrap64 (target_hold_micros * ticks_per_micro mhz) in
    let computed = wrap64 (ema * target_ticks) / elapsed in
    let batch =
      if ltb 0 elapsed
      then wrap32 (if ltb batch_max computed then batch_max else computed)
      else state.batch_size in
    record { ema_demand = ema; batch_size = clamp_batch batch; last_refill_tsc = now }

unfoldable pub compute_batch : ℕ → ℕ → Option Controller → ℕ → ℕ → Option Controller × ℕ
unfolding step
compute_batch mhz now none cls demand = (none, batch_min)
compute_batch mhz now (some ctrl) cls demand =
    let state' = step mhz (get_or ctrl cls fresh) now demand in
    if leb num_size_classes cls
    then (some ctrl, batch_min)
    else (some (set ctrl cls state'), state'.batch_size)
