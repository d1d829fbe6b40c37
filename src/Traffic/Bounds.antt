-- ===== src/Traffic/Bounds.antt =====
-- What the pacing of traffic-generator/cmd/traffic-gen/main.go promises.
use net_perf_test.Common.{ℕ, ◌+◌, ◌*◌, ◌/◌, ◌≤◌, ◌<◌, ◌≡◌, refl, arith}
use native.Mathlib.Nat.{
  mul-div-le, lt-mul-div-succ, div-eq_of_lt, le-div_iff_mul-le, div-lt_iff_lt-mul,
}
use net_perf_test.Common.Ints.{ℤ, pos}
use net_perf_test.Traffic.Pacing.{
  second, microsecond, default_pps, pps_per_worker, effective_pps, pacing,
}

-- For every target, also 0 and the negative ones, a batch has 1 to 1000 packets, and the ticker's
-- interval is at least a microsecond, so that `time.NewTicker` does not panic.
pub pacing_bounds :
    (target : ℤ)
    → (1 ≤ (pacing target).batch_size)
      × ((pacing target).batch_size ≤ 1000)
      × (microsecond ≤ (pacing target).batch_interval)
unfolding pacing effective_pps
pacing_bounds target = ground arith

abbrev ten_seconds : ℕ
ten_seconds = 10000000000

interval_slow : (pps : ℕ) → 0 < pps → pps ≤ 10000000 → microsecond ≤ ten_seconds / pps
interval_slow pps lo hi = (le-div_iff_mul-le lo).1 (omega arith)

interval_fast : (pps : ℕ) → 10000000 < pps → ten_seconds / pps < microsecond
interval_fast pps h = (div-lt_iff_lt-mul (omega arith)).1 (omega arith)

-- Up to ten million packets per second the batches of 10 are never sent slower than the target
-- asks, and an interval one nanosecond longer would be slower.
pub pacing_slow :
    (pps : ℕ)
    → 0 < pps
    → pps ≤ 10000000
    → let p = pacing (pos pps) in
      (p.batch_size ≡ 10)
      × (pps * p.batch_interval ≤ p.batch_size * second)
      × (p.batch_size * second < pps * (p.batch_interval + 1))
unfolding pacing effective_pps
pacing_slow pps lo hi =
    ground
      (arith, interval_slow pps lo hi, mul-div-le ten_seconds pps, lt-mul-div-succ ten_seconds lo)

-- Above ten million packets per second the batches go out each microsecond, and never exceed the
-- target.
pub pacing_fast :
    (pps : ℕ)
    → 10000000 < pps
    → let p = pacing (pos pps) in (p.batch_interval ≡ microsecond) × (p.batch_size * 1000000 ≤ pps)
unfolding pacing effective_pps
pacing_fast pps h = ground (arith, interval_fast pps h)

-- The workers' shares do not add up to more than the rate asked for, and what is lost is less
-- than one packet per worker and second.
pub pps_per_worker_share :
    (pps workers : ℕ)
    → 0 < workers
    → (share : ℕ) × (pps_per_worker (pos pps) workers ≡ pos share)
      × (workers * share ≤ pps)
      × (pps < workers * share + workers)
unfolding pps_per_worker
pps_per_worker_share pps workers h =
    (pps / workers, refl, mul-div-le pps workers, omega (arith, lt-mul-div-succ pps h))

-- With fewer packets per second asked for than there are workers, each worker sends at the default
-- of 10000 packets per second.
pub small_rate_overshoots :
    (pps workers : ℕ)
    → pps < workers
    → effective_pps (pps_per_worker (pos pps) workers) ≡ default_pps
unfolding effective_pps pps_per_worker
small_rate_overshoots pps workers h = rw (div-eq_of_lt h)
