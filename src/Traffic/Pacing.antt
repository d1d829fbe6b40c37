-- ===== src/Traffic/Pacing.antt =====
-- How the rate is split over the workers and paced by a ticker: the start of `main` and of
-- `sendPacketsRateLimited` in traffic-generator/cmd/traffic-gen/main.go.
use net_perf_test.Common.{ℕ, ◌*◌, ◌/◌, ltb, if◌then◌else◌}
use net_perf_test.Common.Ints.{ℤ, pos, negsuc, quot}

-- `*workers`, once it is set; `num_cpu` is what `runtime.NumCPU` returns.
unfoldable pub worker_count : ℤ → ℕ → ℕ
worker_count (pos n) num_cpu = if ltb 0 n then n else num_cpu
worker_count (negsuc _) num_cpu = num_cpu

-- `*pps / *workers`
unfoldable pub pps_per_worker : ℤ → ℕ → ℤ
pps_per_worker pps workers = quot pps workers

abbrev pub default_pps : ℕ
default_pps = 10000

-- `if targetPPS <= 0 { targetPPS = 10000 }`
unfoldable pub effective_pps : ℤ → ℕ
effective_pps (pos n) = if ltb 0 n then n else default_pps
effective_pps (negsuc _) = default_pps

-- Durations are in nanoseconds.
abbrev pub second : ℕ
second = 1000000000

abbrev pub microsecond : ℕ
microsecond = 1000

-- A batch of packets is sent at each tick.
pub record Pacing : Type 0 where
  pub batch_size : ℕ
  pub batch_interval : ℕ

abbrev pub clamp_batch : ℕ → ℕ
clamp_batch n = let low = if ltb n 1 then 1 else n in if ltb 1000 low then 1000 else low

unfoldable pub pacing : ℤ → Pacing
pacing target =
    let pps = effective_pps target in
    let interval = second * 10 / pps in
    if ltb interval microsecond
    then record { batch_size = clamp_batch (pps / 1000000); batch_interval = microsecond }
    else record { batch_size = 10; batch_interval = interval }
