-- ===== src/Traffic/Reports.antt =====
-- `reportStats` and the final statistics of `main` in traffic-generator/cmd/traffic-gen/main.go, by
-- the numbers that they print. Times are in nanoseconds, of a clock that does not go back.
use net_perf_test.Common.{ℕ, ◌-◌, List, [], ◌∷◌}
use net_perf_test.Common.Words.{sub64}
use net_perf_test.Common.Floats.{Floats}

-- What a tick of the reporter reads: the counter, and the time.
pub record Reading : Type 0 where
  pub packets : ℕ
  pub time : ℕ

-- A line of the report. `increase` is the difference that the current rate is made from.
pub record Report (F : Type 0) : Type 0 where
  pub packets : ℕ
  pub increase : ℕ
  pub current_pps : F
  pub avg_pps : F

pub record FinalStats (F : Type 0) : Type 0 where
  pub elapsed : F
  pub total_packets : ℕ
  pub total_mb : F
  pub actual_pps : F
  pub mbps : F

module _ (floats : Floats) (start_time : ℕ) where
  open floats use {Float, of_uint, seconds, div, mul}

  abbrev pub report_of : Reading → Reading → Report Float
  report_of last current = record {
    packets = current.packets;
    increase = sub64 current.packets last.packets;
    current_pps =
        div (of_uint (sub64 current.packets last.packets)) (seconds (current.time - last.time));
    avg_pps = div (of_uint current.packets) (seconds (current.time - start_time));
  }

  -- The loop, by what its ticks read, up to the stop.
  unfoldable pub report_stats_from : Reading → List Reading → List (Report Float)
  report_stats_from last [] = []
  report_stats_from last (current ∷ readings) =
      report_of last current ∷ report_stats_from current readings

  -- `lastPackets` starts at 0; `begun` is the time at which the reporter starts.
  unfoldable pub report_stats : ℕ → List Reading → List (Report Float)
  report_stats begun readings = report_stats_from (record { packets = 0; time = begun }) readings

  -- `float64(totalBytes)*8/elapsed/1000000` is the throughput.
  unfoldable pub final_stats : ℕ → ℕ → ℕ → FinalStats Float
  final_stats now total_packets total_bytes =
      let elapsed = seconds (now - start_time) in
      record {
        elapsed = elapsed;
        total_packets = total_packets;
        total_mb = div (div (of_uint total_bytes) (of_uint 1024)) (of_uint 1024);
        actual_pps = div (of_uint total_packets) elapsed;
        mbps = div (div (mul (of_uint total_bytes) (of_uint 8)) elapsed) (of_uint 1000000);
      }
