-- ===== src/Traffic/Workers.antt =====
-- The workers of traffic-generator/cmd/traffic-gen/main.go at the same time: `main` starts them,
-- they add to the same two counters, and the stop channel ends them. Each step is one that the Go
-- scheduler may take: a look at the channels, a write, or one atomic addition.
use net_perf_test.Common.{
  ℕ, zero, suc, ◌+◌, ◌≡◌, Bool, true, false, List, [], ◌∷◌, ◌++◌, if◌then◌else◌,
}
use net_perf_test.Common.Words.{add64}
use net_perf_test.Common.Ints.{ℤ}
use net_perf_test.Traffic.Pacing.{pps_per_worker, pacing}

-- Where a worker stands: at its `select`, with so many writes of a burst left, or behind a write of
-- so many bytes with one or both of the additions still to make. A worker that cannot dial is
-- finished from the start.
pub data Worker : Type 0 where
  at_select finished : Worker
  writing : ℕ → Worker
  wrote counted : ℕ → ℕ → Worker

-- `accepted` and `accepted_bytes` count what the connections have taken.
pub record System : Type 0 where
  pub stopped : Bool
  pub packets_sent : ℕ
  pub bytes_sent : ℕ
  pub workers : List Worker
  pub accepted : ℕ
  pub accepted_bytes : ℕ

abbrev pub with_workers : List Worker → List Worker → Worker → System → System
with_workers before behind w s = record s { workers = before ++ w ∷ behind }

-- A step of a worker, with bursts of `batch` packets; the others stand `before` and `behind` it.
pub data Step (batch : ℕ) (s : System) : System → Type 0 where
  close_stop : Step batch s (record s { stopped = true })
  start_burst :
      (before behind : List Worker)
      → s.workers ≡ before ++ at_select ∷ behind
      → Step batch s (with_workers before behind (writing batch) s)
  see_stop :
      (before behind : List Worker)
      → s.stopped ≡ true
      → s.workers ≡ before ++ at_select ∷ behind
      → Step batch s (with_workers before behind finished s)
  end_burst :
      (before behind : List Worker)
      → s.workers ≡ before ++ writing zero ∷ behind
      → Step batch s (with_workers before behind at_select s)
  write_fails :
      (before behind : List Worker) (left : ℕ)
      → s.workers ≡ before ++ writing (suc left) ∷ behind
      → Step batch s (with_workers before behind (writing left) s)
  write_works :
      (before behind : List Worker) (left n : ℕ)
      → s.workers ≡ before ++ writing (suc left) ∷ behind
      → Step batch s (record (with_workers before behind (wrote n left) s) {
        accepted = s.accepted + 1;
        accepted_bytes = s.accepted_bytes + n;
      })
  add_packet :
      (before behind : List Worker) (left n : ℕ)
      → s.workers ≡ before ++ wrote n left ∷ behind
      → Step batch s (record (with_workers before behind (counted n left) s) {
        packets_sent = add64 s.packets_sent 1;
      })
  add_bytes :
      (before behind : List Worker) (left n : ℕ)
      → s.workers ≡ before ++ counted n left ∷ behind
      → Step batch s (record (with_workers before behind (writing left) s) {
        bytes_sent = add64 s.bytes_sent n;
      })

-- The goroutines, by whether each could dial.
abbrev pub dialed : List Bool → List Worker
dialed [] = []
dialed (works ∷ rest) = (if works then at_select else finished) ∷ dialed rest

abbrev pub start : List Bool → System
start dials = record {
  stopped = false;
  packets_sent = 0;
  bytes_sent = 0;
  workers = dialed dials;
  accepted = 0;
  accepted_bytes = 0;
}

-- What is reached from the start by steps in any order.
pub data Reach (batch : ℕ) (dials : List Bool) : System → Type 0 where
  started : Reach batch dials (start dials)
  later : (s t : System) → Reach batch dials s → Step batch s t → Reach batch dials t

-- The burst of a worker: 100 at the maximal rate, and by the pacing of its share otherwise.
unfoldable pub burst_size : Bool → ℤ → ℕ → ℕ
burst_size max_rate pps workers =
    if max_rate then 100 else (pacing (pps_per_worker pps workers)).batch_size
