-- ===== src/Refill/Laws.antt =====
-- The bounds that every refill batch keeps, and the batch and the state that an update gives.
use v8malloc.Prelude.{
  ℕ, ◌+◌, ◌-◌, ◌*◌, ◌/◌, ◌^◌, ◌≤◌, ◌<◌, ◌≡◌, ◌≢◌, ◌⊎◌, refl, sym, ◌∙◌, inl, inr, some, none, Option,
  arith, ltb, leb, ◌==◌, ◌||◌, if◌then◌else◌, true, false, Bool-cases, subst, length, get_or, set,
  length-set, get_or-set_self, get_or-set_ne,
}
use native.Mathlib.Nat.{mod-eq_of_lt, div-add-mod', mod-lt, mul-le-mul_right}
use v8malloc.Words.{wrap64, wrap32}
use v8malloc.SizeClass.{num_size_classes}
use v8malloc.Refill.{
  ClassState, Controller, fresh, batch_min, batch_max, ticks_per_micro, next_ema, elapsed_ticks,
  clamp_batch, step, compute_batch,
}

clamp_batch_bounds : (n : ℕ) → (batch_min ≤ clamp_batch n) × (clamp_batch n ≤ batch_max)
unfolding clamp_batch
clamp_batch_bounds n = ground arith

-- Whatever the clock, the demand and the state, `v8m_refill_controller_compute_batch` returns between
-- 8 and 64, for a NULL controller and a class out of range too.
pub compute_batch_bounds :
    (mhz now : ℕ) (ctrl : Option Controller) (cls demand : ℕ)
    → let batch = (compute_batch mhz now ctrl cls demand).1 in
      (batch_min ≤ batch) × (batch ≤ batch_max)
unfolding compute_batch
compute_batch_bounds mhz now none cls demand = omega arith
compute_batch_bounds mhz now (some ctrl) cls demand = ground (arith, clamp_batch_bounds 0)

-- The moving average of 32-bit numbers stays between the old average and the demand.
pub next_ema_between :
    (state : ClassState) (demand lo hi : ℕ)
    → hi < 2 ^ 32
    → lo ≤ state.ema_demand
    → state.ema_demand ≤ hi
    → lo ≤ demand
    → demand ≤ hi
    → (lo ≤ next_ema state demand) × (next_ema state demand ≤ hi)
unfolding next_ema
next_ema_between state demand lo hi h a b c d = omega arith

next_ema-lt : (state : ClassState) (demand : ℕ) → next_ema state demand < 2 ^ 32
unfolding next_ema
next_ema-lt state demand = omega arith

product_small : (a b : ℕ) → a < 2 ^ 32 → b < 2 ^ 24 → a * b < 2 ^ 64
product_small a b h k = grind arith

ticks_per_micro-pos : (mhz : ℕ) → 0 < mhz → ticks_per_micro mhz ≡ mhz
unfolding ticks_per_micro
ticks_per_micro-pos mhz h = ground arith

elapsed_ticks_later :
    (state : ClassState) (now : ℕ)
    → 0 < state.last_refill_tsc
    → state.last_refill_tsc < now
    → elapsed_ticks state now ≡ now - state.last_refill_tsc
unfolding elapsed_ticks
elapsed_ticks_later state now h k = ground arith

-- The average is three parts of the old one and one part of the demand, rounded down.
next_ema_weights :
    (state : ClassState) (demand : ℕ)
    → state.ema_demand < 2 ^ 32
    → demand < 2 ^ 32
    → let ema = next_ema state demand in
      (4 * ema ≤ 3 * state.ema_demand + demand) × (3 * state.ema_demand + demand < 4 * ema + 4)
unfolding next_ema
next_ema_weights state demand h k = (omega arith, omega arith)

-- A batch that `work` ticks of demand last over `elapsed` ticks, between the limits.
pub record LastsFor (work elapsed batch : ℕ) : Type 0 where
  pub low : 8 ≤ batch
  pub high : batch ≤ 64
  pub enough : (batch ≡ 64) ⊎ (work < (batch + 1) * elapsed)
  pub no_more : (batch ≡ 8) ⊎ (batch * elapsed ≤ work)

-- The limits cut a quotient that they do not hold.
clamped :
    (q : ℕ)
    → let b = clamp_batch (wrap32 (if ltb batch_max q then batch_max else q)) in
      ((q < 8) × (b ≡ 8)) ⊎ (((8 ≤ q) × (q ≤ 64) × (b ≡ q)) ⊎ ((64 < q) × (b ≡ 64)))
unfolding clamp_batch
clamped q = elim (Bool-cases (ltb q 8)) [
  | inl t ↦ inl (ground arith, ground arith)
  | inr f ↦ inr (elim (Bool-cases (ltb 64 q)) [
    | inl t ↦ inr (ground arith, ground arith)
    | inr g ↦ inl (ground arith, ground arith, ground arith)
  ])
]

quotient-LastsFor :
    (work elapsed q b : ℕ)
    → q * elapsed ≤ work
    → work < (q + 1) * elapsed
    → ((q < 8) × (b ≡ 8)) ⊎ (((8 ≤ q) × (q ≤ 64) × (b ≡ q)) ⊎ ((64 < q) × (b ≡ 64)))
    → LastsFor work elapsed b
quotient-LastsFor work elapsed q b down up (inl (small, e)) = record {
  low = omega arith;
  high = omega arith;
  enough =
      let more : (q + 1) * elapsed ≤ 9 * elapsed = mul-le-mul_right elapsed (omega arith) in
      inr (subst (λ n. work < (n + 1) * elapsed) (sym e) (omega arith));
  no_more = inl e;
}
quotient-LastsFor work elapsed q b down up (inr (inl (lo, hi, e))) = record {
  low = omega arith;
  high = omega arith;
  enough = inr (subst (λ n. work < (n + 1) * elapsed) (sym e) up);
  no_more = inr (subst (λ n. n * elapsed ≤ work) (sym e) down);
}
quotient-LastsFor work elapsed q b down up (inr (inr (large, e))) = record {
  low = omega arith;
  high = omega arith;
  enough = inl e;
  no_more =
      let less : 64 * elapsed ≤ q * elapsed = mul-le-mul_right elapsed (omega arith) in
      inr (subst (λ n. n * elapsed ≤ work) (sym e) (omega arith));
}

-- What one update gives of the state of a class, and the batch.
pub record IsUpdated (mhz now demand : ℕ) (old new : ClassState) (batch : ℕ) : Type 0 where
  pub stored : new.batch_size ≡ batch
  pub stamped : new.last_refill_tsc ≡ now
  pub average :
      (4 * new.ema_demand ≤ 3 * old.ema_demand + demand)
      × (3 * old.ema_demand + demand < 4 * new.ema_demand + 4)
  pub rate :
      ((0 < old.last_refill_tsc)
        × (old.last_refill_tsc < now)
        × LastsFor (new.ema_demand * (100 * mhz)) (now - old.last_refill_tsc) batch)
      ⊎ (((old.last_refill_tsc ≡ 0) ⊎ (now ≤ old.last_refill_tsc)) × (batch ≡ old.batch_size))

quotient_holds :
    (work elapsed : ℕ)
    → 0 < elapsed
    → (work / elapsed * elapsed ≤ work) × (work < (work / elapsed + 1) * elapsed)
quotient_holds work elapsed h =
    let sum = div-add-mod' work elapsed in
    let rest = mod-lt work {m = elapsed} h in (omega (arith, sum), grind (arith, sum, rest))

module _ (mhz : ℕ) (old : ClassState) (now demand : ℕ) (pos : 0 < mhz) (h : mhz < 2 ^ 16) where
  -- The first refill, or a clock that does not go on: the batch stays.
  same_batch :
      (old.last_refill_tsc == 0 || leb now old.last_refill_tsc) ≡ true
      → 8 ≤ old.batch_size
      → old.batch_size ≤ 64
      → (step mhz old now demand).batch_size ≡ old.batch_size
  unfolding step elapsed_ticks clamp_batch
  same_batch t lo hi = rw t (ground arith)

  rated_batch :
      (old.last_refill_tsc == 0 || leb now old.last_refill_tsc) ≡ false
      → LastsFor
          (next_ema old demand * (100 * mhz))
          (now - old.last_refill_tsc)
          (step mhz old now demand).batch_size
  unfolding step
  rated_batch f =
      let ema : next_ema old demand < 2 ^ 32 = next_ema-lt old demand in
      let ticks : ticks_per_micro mhz ≡ mhz = ticks_per_micro-pos mhz pos in
      let product : next_ema old demand * (100 * mhz) < 2 ^ 64 =
        product_small _ _ ema (omega arith) in
      let elapsed : elapsed_ticks old now ≡ now - old.last_refill_tsc =
        elapsed_ticks_later old now (ground arith) (ground arith) in
      let later : 0 < now - old.last_refill_tsc = ground arith in
      let positive : ltb 0 (now - old.last_refill_tsc) ≡ true = ground arith in
      let exact : wrap64 (100 * mhz) ≡ 100 * mhz = omega arith in
      let exact' : wrap64 (next_ema old demand * (100 * mhz)) ≡ next_ema old demand * (100 * mhz) =
        mod-eq_of_lt product in
      let (down, up) = quotient_holds (next_ema old demand * (100 * mhz)) _ later in
      rw (ticks, elapsed, positive, exact, exact') (quotient-LastsFor _ _ _ _ down up (clamped _))

  step-IsUpdated :
      old.ema_demand < 2 ^ 32
      → demand < 2 ^ 32
      → 8 ≤ old.batch_size
      → old.batch_size ≤ 64
      → let new = step mhz old now demand in IsUpdated mhz now demand old new new.batch_size
  unfolding step
  step-IsUpdated he hd lo hi = record {
    stored = refl;
    stamped = refl;
    average = next_ema_weights old demand he hd;
    rate = elim (Bool-cases (old.last_refill_tsc == 0 || leb now old.last_refill_tsc)) [
      | inl t ↦ inr (ground arith, same_batch t lo hi)
      | inr f ↦ inl (ground arith, ground arith, rated_batch f)
    ];
  }

-- `v8m_refill_controller_compute_batch` of a class in range, where a state holds 32-bit numbers and a batch
-- between 8 and 64 and the clock has 1 to 65535 MHz, stores the batch that it returns and the time. The
-- average becomes (3 * old + demand) / 4, rounded down. If the clock is past the last refill, the batch is
-- as many whole objects as 100 µs take at the rate of that average over the ticks since then, cut to the
-- range from 8 to 64; at the first refill, or if the clock is not past it, the batch stays. The states of
-- the other classes stay.
pub compute_batch_lem :
    (mhz now : ℕ) (ctrl : Controller) (cls demand : ℕ)
    → 0 < mhz
    → mhz < 2 ^ 16
    → length ctrl ≡ num_size_classes
    → cls < num_size_classes
    → demand < 2 ^ 32
    → (get_or ctrl cls fresh).ema_demand < 2 ^ 32
    → 8 ≤ (get_or ctrl cls fresh).batch_size
    → (get_or ctrl cls fresh).batch_size ≤ 64
    → (ctrl' : Controller) × (batch : ℕ) × (compute_batch mhz now (some ctrl) cls demand
        ≡ (some ctrl', batch))
      × (length ctrl' ≡ num_size_classes)
      × IsUpdated mhz now demand (get_or ctrl cls fresh) (get_or ctrl' cls fresh) batch
      × ((k : ℕ) → k ≢ cls → get_or ctrl' k fresh ≡ get_or ctrl k fresh)
unfolding compute_batch
compute_batch_lem mhz now ctrl cls demand pos h size inside hd he lo hi =
    let old = get_or ctrl cls fresh in
    let new = step mhz old now demand in
    let here : get_or (set ctrl cls new) cls fresh ≡ new =
      get_or-set_self ctrl cls new fresh (omega arith) in
    let in_range : leb num_size_classes cls ≡ false = ground arith in
    (
      set ctrl cls new,
      new.batch_size,
      rw in_range refl,
      length-set ctrl cls new ∙ size,
      subst (λ s. IsUpdated mhz now demand old s new.batch_size) (sym here)
          (step-IsUpdated mhz old now demand pos h he hd lo hi),
      λ k n. get_or-set_ne ctrl cls k new fresh (λ e. n (sym e)),
    )
