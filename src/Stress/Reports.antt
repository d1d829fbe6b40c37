-- ===== src/Stress/Reports.antt =====
-- `printStats` and the final statistics of `cleanup` in ebpf-stress/cmd/ebpf-stress/main.go, by the
-- numbers that they print. Times are in nanoseconds, of a clock that does not go back.
use net_perf_test.Common.{ℕ, ◌-◌, ◌≡◌, refl, Option, none, some, Result, ok, err}
use net_perf_test.Common.Floats.{Floats}
use net_perf_test.Stress.Loader.Types.{System, Error, Run}
use net_perf_test.Stress.Loader.Lifecycle.{detach}
use net_perf_test.Stress.Loader.Readings.{Stats, get_stats}
use net_perf_test.Stress.Main.{stats_tick, on_tick, cleanup}

pub record Report (F : Type 0) : Type 0 where
  pub packets : ℕ
  pub packets_per_second : F
  pub total_loops : ℕ
  pub avg_loops : F
  pub elapsed : F

module _ (sys : System) (floats : Floats) where
  open floats use {Float, of_uint, seconds, div}

  -- The figures that both texts show, for the time since the start.
  unfoldable pub report_of : ℕ → ℕ → Stats Float → Report Float
  report_of start_time now stats =
      let elapsed = seconds (now - start_time) in
      record {
        packets = stats.packets_processed;
        packets_per_second = div (of_uint stats.packets_processed) elapsed;
        total_loops = stats.total_loops;
        avg_loops = stats.loops_per_packet;
        elapsed = elapsed;
      }

  abbrev reported : ℕ → ℕ → Result Error (Stats Float) → Result Error (Report Float)
  reported start_time now (err e) = err e
  reported start_time now (ok stats) = ok (report_of start_time now stats)

  unfoldable pub print_stats : ℕ → ℕ → Run → Result Error (Report Float) × Run
  print_stats start_time now s =
      let r = get_stats sys floats s in (reported start_time now r.0, r.1)

  -- A round of the main loop prints, and goes on from where the printing leaves the loader.
  print_stats-state :
      (start_time now : ℕ) (s : Run)
      → (print_stats start_time now s).1 ≡ on_tick sys floats stats_tick s
  unfolding print_stats
  print_stats-state start_time now s = refl

  abbrev or_nothing : Result Error (Report Float) → Option (Report Float)
  or_nothing (ok report) = some report
  or_nothing (err _) = none

  -- `cleanup` with what it prints: nothing if the statistics cannot be read.
  unfoldable pub cleanup_report : ℕ → ℕ → Run → Option (Report Float) × Run
  cleanup_report start_time now s =
      let r = print_stats start_time now s in (or_nothing r.0, (detach sys r.1).1)

  cleanup_report-state :
      (start_time now : ℕ) (s : Run) → (cleanup_report start_time now s).1 ≡ cleanup sys floats s
  unfolding cleanup_report print_stats cleanup
  cleanup_report-state start_time now s = refl
