-- ===== src/Traffic/Tests.antt =====
-- The theorems on traffic-gen at concrete numbers.
use net_perf_test.Traffic.Workers.{
  Worker, burst_size, finished, wrote, System, start_burst, write_works, start, Reach, started,
  later,
}
use net_perf_test.Common.Ints.{pos}
use net_perf_test.Common.Sample.{naturals}
use net_perf_test.Traffic.Pacing.{worker_count, pps_per_worker, effective_pps, pacing}
use net_perf_test.Traffic.Reports.{FinalStats}
use net_perf_test.Traffic.Command.{
  Options, default_options, apply_settings, pps, workers, goroutines, dials as dials_of_main, batch,
  Ends, ended,
}
use net_perf_test.Traffic.Ends.{Later, main-can_end}
use net_perf_test.Traffic.Shared.{reading_bounds}
use net_perf_test.Common.{Bool, List, length, refl}
use net_perf_test.Common.{ℕ, ◌+◌, ◌≤◌, true, false, [], ◌∷◌, arith, ◌==◌}

-- Two workers, of which the second cannot dial; the first writes one packet of 64 bytes.
abbrev dials : List Bool
dials = true ∷ false ∷ []

abbrev wrote_one : System
wrote_one = record (start dials) {
  workers = wrote 64 0 ∷ finished ∷ [];
  accepted = 1;
  accepted_bytes = 64;
}

wrote_one-Reach : Reach 1 dials wrote_one
wrote_one-Reach =
    later _ _ (later _ _ started (start_burst [] (finished ∷ []) refl))
      (write_works [] (finished ∷ []) 0 64 refl)

reading_bounds_example :
    (wrote_one.packets_sent ≤ 1) × (1 ≤ wrote_one.packets_sent + length wrote_one.workers)
reading_bounds_example = reading_bounds 1 dials wrote_one wrote_one-Reach (omega arith)

-- Two workers share 1000 packets per second, in bursts of ten. The first writes one packet, and the
-- rest of its burst fails; the second cannot dial.
abbrev two_workers : Options
two_workers = apply_settings (pps (pos 1000) ∷ workers (pos 2) ∷ []) default_options

abbrev first_dials : ℕ → Bool
first_dials id = id == 0

abbrev counted_one : Worker → System
counted_one w = record (start dials) {
  packets_sent = 1;
  bytes_sent = 64;
  workers = w ∷ finished ∷ [];
  accepted = 1;
  accepted_bytes = 64;
}

abbrev completed : System
completed = record (counted_one finished) { stopped = true }

-- From a burst of which a packet is written and not yet counted.
abbrev halfway : System
halfway = record (start dials) {
  workers = wrote 64 9 ∷ finished ∷ [];
  accepted = 1;
  accepted_bytes = 64;
}

halfway-Reach :
    Reach
      (batch naturals two_workers 1 first_dials 0)
      (dials_of_main naturals two_workers 1 first_dials 0)
      halfway
unfolding goroutines worker_count pps_per_worker burst_size pacing effective_pps
halfway-Reach =
    later _ _ (later _ _ started (start_burst [] (finished ∷ []) refl))
      (write_works [] (finished ∷ []) 9 64 refl)

main-can_end_example :
    (s : System) × (stats : FinalStats naturals.Float) × Later
      (batch naturals two_workers 1 first_dials 0)
      halfway
      s
    × Ends naturals two_workers 1 first_dials 0 (ended s stats)
unfolding goroutines worker_count
main-can_end_example = main-can_end naturals two_workers 1 first_dials 0 halfway refl halfway-Reach
