-- ===== src/Afpacket/Reports.antt =====
-- `reportStats` and `printFinalStats` of traffic-generator/cmd/afpacket-stress/main.go, by the
-- numbers that they print. Times are in nanoseconds, of a clock that does not go back.
pub mod Totals
use net_perf_test.Common.{ℕ, ◌-◌, List, [], ◌∷◌}
use net_perf_test.Common.Words.{sub64}
use net_perf_test.Common.Floats.{Floats}
use net_perf_test.Afpacket.Softirq.{Texts, Monitor, Verdict, verdict}

-- What a tick of the reporter reads.
pub record Reading (F : Type 0) : Type 0 where
  pub packets_sent : ℕ
  pub packets_recv : ℕ
  pub active_sockets : ℕ
  pub softirq_percent : F
  pub peak : F
  pub time : ℕ

-- A line of the report, with the differences that the two rates are made from.
pub record Report (F : Type 0) : Type 0 where
  pub active_sockets : ℕ
  pub sent_increase : ℕ
  pub recv_increase : ℕ
  pub send_pps : F
  pub recv_pps : F
  pub softirq_percent : F
  pub peak : F

-- `lastPacketsSent`, `lastPacketsRecv` and `lastTime`
pub record Last : Type 0 where
  pub packets_sent : ℕ
  pub packets_recv : ℕ
  pub time : ℕ

-- The four counters at the end.
pub record Counters : Type 0 where
  pub packets_sent : ℕ
  pub packets_recv : ℕ
  pub bytes_sent : ℕ
  pub bytes_recv : ℕ

pub record FinalStats (F : Type 0) : Type 0 where
  pub elapsed : F
  pub sockets : ℕ
  pub total_sent : ℕ
  pub sent_mb : F
  pub avg_send_pps : F
  pub mbps : F
  pub total_recv : ℕ
  pub recv_mb : F
  pub avg_recv_pps : F
  pub peak_softirq : F
  pub avg_softirq : F

module _ (floats : Floats) where
  open floats use {Float, of_uint, seconds, div, mul}

  abbrev pub report_of : Last → Reading Float → Report Float
  report_of last current =
      let elapsed = seconds (current.time - last.time) in
      record {
        active_sockets = current.active_sockets;
        sent_increase = sub64 current.packets_sent last.packets_sent;
        recv_increase = sub64 current.packets_recv last.packets_recv;
        send_pps = div (of_uint (sub64 current.packets_sent last.packets_sent)) elapsed;
        recv_pps = div (of_uint (sub64 current.packets_recv last.packets_recv)) elapsed;
        softirq_percent = current.softirq_percent;
        peak = current.peak;
      }

  abbrev pub last_of_reading : Reading Float → Last
  last_of_reading r = record {
    packets_sent = r.packets_sent;
    packets_recv = r.packets_recv;
    time = r.time;
  }

  -- The loop, by what its ticks read, up to the stop.
  unfoldable pub report_stats_from : Last → List (Reading Float) → List (Report Float)
  report_stats_from last [] = []
  report_stats_from last (current ∷ readings) =
      report_of last current ∷ report_stats_from (last_of_reading current) readings

  unfoldable pub report_stats : ℕ → List (Reading Float) → List (Report Float)
  report_stats begun readings =
      report_stats_from (record { packets_sent = 0; packets_recv = 0; time = begun }) readings

  abbrev megabytes : ℕ → Float
  megabytes bytes = div (div (of_uint bytes) (of_uint 1024)) (of_uint 1024)

  unfoldable pub final_stats : ℕ → ℕ → ℕ → Counters → Monitor Float → FinalStats Float
  final_stats start_time now sockets totals monitor =
      let elapsed = seconds (now - start_time) in
      record {
        elapsed = elapsed;
        sockets = sockets;
        total_sent = totals.packets_sent;
        sent_mb = megabytes totals.bytes_sent;
        avg_send_pps = div (of_uint totals.packets_sent) elapsed;
        mbps = div (div (mul (of_uint totals.bytes_sent) (of_uint 8)) elapsed) (of_uint 1000000);
        total_recv = totals.packets_recv;
        recv_mb = megabytes totals.bytes_recv;
        avg_recv_pps = div (of_uint totals.packets_recv) elapsed;
        peak_softirq = monitor.peak;
        avg_softirq = monitor.avg;
      }
