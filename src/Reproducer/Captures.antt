-- ===== src/Reproducer/Captures.antt =====
-- `cleanupCaptures` and `countActiveProcesses` of af_packet_reproducer/main.go. The trace records
-- each signal with its answer, the newest first.
use net_perf_test.Common.{ℕ, suc, Option, none, some, List, [], ◌∷◌, Result, ok, err}

-- `Capture`; `process` is `Cmd.Process`, if there are a command and its process.
pub record Capture : Type 0 where
  pub id : ℕ
  pub process : Option ℕ

-- Signal 0 only asks whether the process is there.
pub data Call : Type 0 where
  probe terminate kill : ℕ → Call

abbrev pub Event : Type 0
Event = Call × Result ℕ ℕ

abbrev pub Trace : Type 0
Trace = List Event

module _ (answer : Trace → Call → Result ℕ ℕ) where
  abbrev pub called : Call → Trace → Trace
  called c t = (c, answer t c) ∷ t

  abbrev pub succeeded : Result ℕ ℕ → ℕ → ℕ
  succeeded (ok _) n = suc n
  succeeded (err _) n = n

  -- A loop that signals each process, and counts the signals that work.
  unfoldable pub signal_each : (ℕ → Call) → List Capture → ℕ → Trace → ℕ × Trace
  signal_each signal [] n t = (n, t)
  signal_each signal (capture ∷ captures) n t = elim capture.process [
    | none ↦ signal_each signal captures n t
    | some p ↦ signal_each signal captures (succeeded (answer t (signal p)) n) (called (signal p) t)
  ]

  unfoldable pub count_active_processes : List Capture → Trace → ℕ × Trace
  count_active_processes captures t = signal_each probe captures 0 t

  -- The number of captures that were stopped, by the signals to terminate; the answers to the
  -- signals to kill, behind the waiting time, are not looked at.
  unfoldable pub cleanup_captures : List Capture → Trace → ℕ × Trace
  cleanup_captures captures t =
      let (stopped, t1) = signal_each terminate captures 0 t in
      (stopped, (signal_each kill captures 0 t1).1)
