-- ===== src/Traffic/Shared.antt =====
-- The counters that the workers of traffic-gen share, in any order of their steps.
use net_perf_test.Common.{
  ℕ, suc, ◌+◌, ◌%◌, ◌≤◌, ◌<◌, ◌≡◌, refl, arith, Bool, true, false, List, [], ◌∷◌, ◌++◌, All, length,
  sum_by, sum_by_move,
}
use net_perf_test.Common.Words.{u64_mod}
use net_perf_test.Traffic.Workers.{
  Worker, at_select, finished, writing, wrote, counted, System, with_workers, Step, close_stop,
  start_burst, see_stop, end_burst, write_fails, write_works, add_packet, add_bytes, dialed, Reach,
  started, later,
}

-- The packets that a worker has written and not yet counted, and the bytes.
abbrev pub open_packets : Worker → ℕ
open_packets (wrote n left) = 1
open_packets _ = 0

abbrev pub open_bytes : Worker → ℕ
open_bytes (wrote n left) = n
open_bytes (counted n left) = n
open_bytes _ = 0

-- The counters stand at what was added to them, modulo 2 ^ 64, and what was added and what is open
-- make up what was accepted.
pub record IsExact (s : System) : Type 0 where
  pub added : ℕ
  pub added_bytes : ℕ
  pub packets : s.packets_sent ≡ added % u64_mod
  pub bytes : s.bytes_sent ≡ added_bytes % u64_mod
  pub all_packets : added + sum_by open_packets s.workers ≡ s.accepted
  pub all_bytes : added_bytes + sum_by open_bytes s.workers ≡ s.accepted_bytes

sum_by-dialed :
    (f : Worker → ℕ) (dials : List Bool)
    → f at_select ≡ 0
    → f finished ≡ 0
    → sum_by f (dialed dials) ≡ 0
sum_by-dialed f [] a b = refl
sum_by-dialed f (true ∷ dials) a b = omega (arith, sum_by-dialed f dials a b)
sum_by-dialed f (false ∷ dials) a b = omega (arith, sum_by-dialed f dials a b)

-- A move between two places with nothing open changes nothing.
moved-IsExact :
    (s : System) (before behind : List Worker) (v w : Worker)
    → s.workers ≡ before ++ v ∷ behind
    → open_packets v ≡ open_packets w
    → open_bytes v ≡ open_bytes w
    → IsExact s
    → IsExact (with_workers before behind w s)
moved-IsExact s before behind v w e p b h = record {
  added = h.added;
  added_bytes = h.added_bytes;
  packets = h.packets;
  bytes = h.bytes;
  all_packets =
      omega (arith, h.all_packets, sum_by_move open_packets s.workers before behind v w e);
  all_bytes = omega (arith, h.all_bytes, sum_by_move open_bytes s.workers before behind v w e);
}

Step-IsExact : (batch : ℕ) (s t : System) → Step batch s t → IsExact s → IsExact t
Step-IsExact batch s _ close_stop h = record {
  added = h.added;
  added_bytes = h.added_bytes;
  packets = h.packets;
  bytes = h.bytes;
  all_packets = h.all_packets;
  all_bytes = h.all_bytes;
}
Step-IsExact batch s _ (start_burst before behind e) h =
    moved-IsExact s before behind at_select (writing batch) e refl refl h
Step-IsExact batch s _ (see_stop before behind _ e) h =
    moved-IsExact s before behind at_select finished e refl refl h
Step-IsExact batch s _ (end_burst before behind e) h =
    moved-IsExact s before behind (writing 0) at_select e refl refl h
Step-IsExact batch s _ (write_fails before behind left e) h =
    moved-IsExact s before behind (writing (suc left)) (writing left) e refl refl h
Step-IsExact batch s _ (write_works before behind left n e) h = record {
  added = h.added;
  added_bytes = h.added_bytes;
  packets = h.packets;
  bytes = h.bytes;
  all_packets = omega (
    arith,
    h.all_packets,
    sum_by_move open_packets s.workers before behind (writing (suc left)) (wrote n left) e,
  );
  all_bytes = omega (
    arith,
    h.all_bytes,
    sum_by_move open_bytes s.workers before behind (writing (suc left)) (wrote n left) e,
  );
}
Step-IsExact batch s _ (add_packet before behind left n e) h = record {
  added = h.added + 1;
  added_bytes = h.added_bytes;
  packets = omega (arith, h.packets);
  bytes = h.bytes;
  all_packets = omega (
    arith,
    h.all_packets,
    sum_by_move open_packets s.workers before behind (wrote n left) (counted n left) e,
  );
  all_bytes = omega (
    arith,
    h.all_bytes,
    sum_by_move open_bytes s.workers before behind (wrote n left) (counted n left) e,
  );
}
Step-IsExact batch s _ (add_bytes before behind left n e) h = record {
  added = h.added;
  added_bytes = h.added_bytes + n;
  packets = h.packets;
  bytes = omega (arith, h.bytes);
  all_packets = omega (
    arith,
    h.all_packets,
    sum_by_move open_packets s.workers before behind (counted n left) (writing left) e,
  );
  all_bytes = omega (
    arith,
    h.all_bytes,
    sum_by_move open_bytes s.workers before behind (counted n left) (writing left) e,
  );
}

-- In every reachable state, and so in any order of the workers' steps.
Reach-IsExact : (batch : ℕ) (dials : List Bool) (s : System) → Reach batch dials s → IsExact s
Reach-IsExact batch dials _ started = record {
  added = 0;
  added_bytes = 0;
  packets = refl;
  bytes = refl;
  all_packets = omega (arith, sum_by-dialed open_packets dials refl refl);
  all_bytes = omega (arith, sum_by-dialed open_bytes dials refl refl);
}
Reach-IsExact batch dials _ (later s t r step) =
    Step-IsExact batch s t step (Reach-IsExact batch dials s r)

sum_by-finished :
    (f : Worker → ℕ) (ws : List Worker)
    → f finished ≡ 0
    → All (λ w. w ≡ finished) ws
    → sum_by f ws ≡ 0
sum_by-finished f [] z h = refl
sum_by-finished f (w ∷ ws) z (e, h) = rw e (omega (arith, sum_by-finished f ws z h))

sum_by_le : (ws : List Worker) → sum_by open_packets ws ≤ length ws
sum_by_le [] = omega arith
sum_by_le (w ∷ ws) = omega (arith, open_packets_le w, sum_by_le ws)
  where
    open_packets_le : (v : Worker) → open_packets v ≤ 1
    open_packets_le at_select = omega arith
    open_packets_le finished = omega arith
    open_packets_le (writing left) = omega arith
    open_packets_le (wrote n left) = omega arith
    open_packets_le (counted n left) = omega arith

-- Once all workers have ended, which `main` waits for, the two counters stand at the packets and the
-- bytes that the connections took, modulo 2 ^ 64, in whatever order the workers took their steps.
pub finished_totals :
    (batch : ℕ) (dials : List Bool) (s : System)
    → Reach batch dials s
    → All (λ w. w ≡ finished) s.workers
    → (s.packets_sent ≡ s.accepted % u64_mod) × (s.bytes_sent ≡ s.accepted_bytes % u64_mod)
finished_totals batch dials s r all =
    let h = Reach-IsExact batch dials s r in
    (
      omega (arith, h.packets, h.all_packets, sum_by-finished open_packets s.workers refl all),
      omega (arith, h.bytes, h.all_bytes, sum_by-finished open_bytes s.workers refl all),
    )

-- While the workers run, a reading of the packet counter is at most the packets that the connections
-- took, and behind them by no more than one for each worker, as long as those fit a uint64.
pub reading_bounds :
    (batch : ℕ) (dials : List Bool) (s : System)
    → Reach batch dials s
    → s.accepted < u64_mod
    → (s.packets_sent ≤ s.accepted) × (s.accepted ≤ s.packets_sent + length s.workers)
reading_bounds batch dials s r small =
    let h = Reach-IsExact batch dials s r in
    (
      omega (arith, h.packets, h.all_packets, sum_by_le s.workers),
      omega (arith, h.packets, h.all_packets, sum_by_le s.workers),
    )
