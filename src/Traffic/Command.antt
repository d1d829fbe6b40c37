-- ===== src/Traffic/Command.antt =====
-- The flags of traffic-generator/cmd/traffic-gen/main.go with their defaults, and its `main` as a
-- whole: the goroutines that it starts, and how a run ends. Reading the arguments is the work of
-- the package flag. A packet size is one that fits the memory, or is negative.
use net_perf_test.Common.{
  ℕ, zero, suc, ◌≡◌, String, Bool, true, false, List, [], ◌∷◌, All, ◌&&◌, ◌||◌, if◌then◌else◌,
}
use net_perf_test.Common.Ints.{ℤ, pos, negsuc}
use net_perf_test.Common.Floats.{Floats}
use net_perf_test.Traffic.Pacing.{worker_count, pps_per_worker}
use net_perf_test.Traffic.Workers.{finished, System, Reach, burst_size}
use net_perf_test.Traffic.Reports.{FinalStats, final_stats}

-- The duration is in nanoseconds.
pub record Options : Type 0 where
  pub pps : ℤ
  pub duration : ℤ
  pub packet_size : ℤ
  pub workers : ℤ
  pub port : ℤ
  pub target_ip : String
  pub max_rate : Bool

abbrev pub default_options : Options
default_options = record {
  pps = pos 500_000;
  duration = pos 120_000_000_000;
  packet_size = pos 64;
  workers = pos 0;
  port = pos 9999;
  target_ip = "127.0.0.1";
  max_rate = false;
}

-- A flag that is given, with its value.
pub data Setting : Type 0 where
  pps duration packet_size workers port : ℤ → Setting
  target_ip : String → Setting
  max_rate : Bool → Setting

abbrev pub apply_setting : Setting → Options → Options
apply_setting (pps v) o = record o { pps = v }
apply_setting (duration v) o = record o { duration = v }
apply_setting (packet_size v) o = record o { packet_size = v }
apply_setting (workers v) o = record o { workers = v }
apply_setting (port v) o = record o { port = v }
apply_setting (target_ip v) o = record o { target_ip = v }
apply_setting (max_rate v) o = record o { max_rate = v }

abbrev pub apply_settings : List Setting → Options → Options
apply_settings [] o = o
apply_settings (setting ∷ settings) o = apply_settings settings (apply_setting setting o)

-- A sender with the number of its worker, and with its share of the rate.
pub data Goroutine : Type 0 where
  max_rate_sender : ℕ → Goroutine
  rate_limited_sender : ℕ → ℤ → Goroutine

abbrev pub goroutine : Options → ℕ → ℕ → Goroutine
goroutine o count id =
    if o.max_rate then max_rate_sender id else rate_limited_sender id (pps_per_worker o.pps count)

-- `for i := 0; i < *workers; i++ { ... }`, from `id` on.
abbrev pub goroutines_from : Options → (count id left : ℕ) → List Goroutine
goroutines_from o count id zero = []
goroutines_from o count id (suc left) = goroutine o count id ∷ goroutines_from o count (suc id) left

unfoldable pub goroutines : Options → ℕ → List Goroutine
goroutines o num_cpu = let count = worker_count o.workers num_cpu in goroutines_from o count 0 count

-- Which of the goroutines can dial, where `dial` says it of the number of a worker.
abbrev pub dials_of : (ℕ → Bool) → List Goroutine → List Bool
dials_of dial [] = []
dials_of dial (max_rate_sender id ∷ rest) = dial id ∷ dials_of dial rest
dials_of dial (rate_limited_sender id _ ∷ rest) = dial id ∷ dials_of dial rest

abbrev pub any_dialed : List Bool → Bool
any_dialed [] = false
any_dialed (dialed ∷ rest) = let later = any_dialed rest in dialed || later

abbrev pub is_negative : ℤ → Bool
is_negative (pos _) = false
is_negative (negsuc _) = true

-- `make([]byte, *packetSize)` of a goroutine that has dialed panics for a negative size.
pub data Ending (F : Type 0) : Type 0 where
  bad_packet_size : Ending F
  ended : System → FinalStats F → Ending F

module _ (floats : Floats) (o : Options) (num_cpu : ℕ) (dial : ℕ → Bool) (start_time : ℕ) where
  abbrev pub dials : List Bool
  dials = dials_of dial (goroutines o num_cpu)

  abbrev pub panics : Bool
  panics = is_negative o.packet_size && any_dialed dials

  abbrev pub batch : ℕ
  batch = burst_size o.max_rate o.pps (worker_count o.workers num_cpu)

  -- `main` comes to its end behind `wg.Wait`, with every worker ended, and reads the counters then.
  pub data Ends : Ending floats.Float → Type 0 where
    size_panics : panics ≡ true → Ends bad_packet_size
    completes :
        (s : System) (now : ℕ)
        → panics ≡ false
        → Reach batch dials s
        → s.stopped ≡ true
        → All (λ w. w ≡ finished) s.workers
        → Ends (ended s (final_stats floats start_time now s.packets_sent s.bytes_sent))
