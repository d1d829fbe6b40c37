-- ===== src/Stress/Loader/Readings.antt =====
-- `GetStats` and `sumPerCPUMap` of ebpf-stress/pkg/ebpf/loader.go.
use net_perf_test.Common.{ℕ, Option, none, some, Result, ok, err, pure, ltb, ◌>>=◌, if◌then◌else◌}
use net_perf_test.Common.Words.{sum_onto}
use net_perf_test.Common.Floats.{Floats}
use net_perf_test.Stress.Loader.Types.{
  lookup_values, lookup_single, System, Error, lookup_failed, no_collection, Run, LoaderM, attempt,
  expect,
}

-- `Stats`, over the type of float64.
pub record Stats (F : Type 0) : Type 0 where
  pub packets_processed : ℕ
  pub total_loops : ℕ
  pub total_bytes : ℕ
  pub total_time_ns : ℕ
  pub loops_per_packet : F
  pub avg_time_per_packet : F

module _ (sys : System) where
  -- A lookup into a slice fails for a map that is not per-CPU: a single value is read instead.
  unfoldable pub sum_per_cpu_map : ℕ → ℕ → LoaderM ℕ
  unfolding ◌>>=◌
  sum_per_cpu_map m key = attempt sys (lookup_values m key) >>= λ found. elim found [
    | ok buffer ↦ pure (sum_onto 0 (sys.words buffer))
    | err _ ↦ expect sys (lookup_single m key) lookup_failed
  ]

  abbrev or_zero : Result Error ℕ → ℕ
  or_zero (ok n) = n
  or_zero (err _) = 0

  -- A counter that is left at zero if its map is missing or cannot be read.
  unfoldable pub read_counter : Option ℕ → Run → ℕ × Run
  read_counter none s = (0, s)
  read_counter (some m) s = let r = sum_per_cpu_map m 0 s in (or_zero r.0, r.1)

  module _ (floats : Floats) where
    open floats use {Float, of_uint, div}

    -- `float64(n) / float64(packets)`, where packets were seen
    abbrev pub per_packet : ℕ → ℕ → Float
    per_packet packets n = if ltb 0 packets then div (of_uint n) (of_uint packets) else of_uint 0

    -- What `GetStats` does on a collection that is there.
    unfoldable pub read_stats : Run → Stats Float × Run
    read_stats s =
        let (packets, s1) = read_counter s.loader.packets_map s in
        let (loops, s2) = read_counter s1.loader.loops_map s1 in
        let (bytes, s3) = read_counter s2.loader.bytes_map s2 in
        let (time_ns, s4) = read_counter s3.loader.time_map s3 in
        (
          record {
            packets_processed = packets;
            total_loops = loops;
            total_bytes = bytes;
            total_time_ns = time_ns;
            loops_per_packet = per_packet packets loops;
            avg_time_per_packet = per_packet packets time_ns;
          },
          s4,
        )

    abbrev pub with_collection_held : Option ℕ → LoaderM (Stats Float)
    with_collection_held none s = (err no_collection, s)
    with_collection_held (some _) s = let r = read_stats s in (ok r.0, r.1)

    unfoldable pub get_stats : LoaderM (Stats Float)
    get_stats s = with_collection_held s.loader.collection s
