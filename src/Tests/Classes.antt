-- ===== src/Tests/Classes.antt =====
-- Runs of the size classes, the refill controller and the advice on huge pages.
use v8malloc.Prelude.{ℕ, ◌≢◌, ◌∷◌, length, get_or, ◌≡◌, refl, some, arith, replicate}
use v8malloc.SizeClass.{size_class, num_size_classes}
use v8malloc.SizeClass.Fit.{Fits, size_class-Fits}
use v8malloc.Refill.{Controller, ClassState, fresh, compute_batch}
use v8malloc.Refill.Laws.{IsUpdated, compute_batch_lem}
use v8malloc.Thp.{Thp, demote, decide_and_record, cold_threshold_ticks}
use v8malloc.Thp.Laws.{quiet_demotes}

size_class-Fits_example : Fits 100 (size_class 100)
size_class-Fits_example = size_class-Fits 100 (omega arith)

-- A class that has seen 20 objects, 1000000 ticks into the run.
abbrev warm : ClassState
warm = record { ema_demand = 20; batch_size = 16; last_refill_tsc = 1000000 }

abbrev controller : Controller
controller = fresh ∷ warm ∷ replicate 39 fresh

compute_batch_lem_example :
    (ctrl' : Controller) × (batch : ℕ) × (compute_batch 3000 1200000 (some controller) 1 40
      ≡ (some ctrl', batch))
    × (length ctrl' ≡ num_size_classes)
    × IsUpdated 3000 1200000 40 warm (get_or ctrl' 1 fresh) batch
    × ((k : ℕ) → k ≢ 1 → get_or ctrl' k fresh ≡ get_or controller k fresh)
compute_batch_lem_example =
    compute_batch_lem 3000 1200000 controller 1 40 (omega arith) (omega arith) refl (omega arith)
      (omega arith) (omega arith) (omega arith) (omega arith)

-- Half a second on average, on a clock of 3000 MHz.
abbrev busy : Thp
busy = record {
  last_alloc_tsc = 5000000000;
  ema_ticks = 1500000000;
  threshold_ticks = 0;
  promote_calls = 4;
  demote_calls = 0;
  age_demote_calls = 0;
}

busy_threshold : (cold_threshold_ticks 3000 busy).1 ≡ 3000000000
unfolding cold_threshold_ticks
busy_threshold = refl

quiet_demotes_example : (decide_and_record 3000 20000000000 busy).1 ≡ demote
quiet_demotes_example =
    quiet_demotes 3000 20000000000 busy (omega arith) (omega arith) (omega arith)
      (rw busy_threshold (omega arith))
