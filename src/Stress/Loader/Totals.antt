-- ===== src/Stress/Loader/Totals.antt =====
-- What `GetStats` of ebpf-stress/pkg/ebpf/loader.go reports.
use net_perf_test.Common.{
  ℕ, zero, suc, ◌≡◌, refl, List, ◌%◌, Option, none, some, ok, err, arith, sum, if◌then◌else◌,
  is_some,
}
use net_perf_test.Common.Words.{u64_mod, sum_onto-zero}
use net_perf_test.Common.Floats.{Floats}
use net_perf_test.Stress.Loader.Types.{
  lookup_values, lookup_single, System, Trace, no_collection, Run, attempt, expect,
}
use net_perf_test.Stress.Loader.Resources.Neutral.{read_counter-IsNeutral}
use net_perf_test.Stress.Loader.Readings.{
  Stats, sum_per_cpu_map, read_counter, read_stats, per_packet, get_stats,
}

-- What a map holds under key 0: a value for each CPU, a single value, or nothing that can be read.
pub data MapState : Type 0 where
  per_cpu : List ℕ → MapState
  single : ℕ → MapState
  unreadable : MapState

-- The sum of the values wraps at 2 ^ 64.
abbrev pub total : MapState → ℕ
total (per_cpu values) = sum values % u64_mod
total (single n) = n
total unreadable = 0

-- The maps keep their values while they are read, and answer the two lookups by them.
pub record IsReading (sys : System) (state : ℕ → MapState) : Type 0 where
  pub per_cpu_found :
      (t : Trace) (m : ℕ) (values : List ℕ)
      → state m ≡ per_cpu values
      → (b : ℕ) × (sys.answer t (lookup_values m 0) ≡ ok b) × (sys.words b ≡ values)
  pub single_found :
      (t : Trace) (m n : ℕ)
      → state m ≡ single n
      → (e : ℕ) × (sys.answer t (lookup_values m 0) ≡ err e)
        × ((u : Trace) → sys.answer u (lookup_single m 0) ≡ ok n)
  pub not_found :
      (t : Trace) (m : ℕ)
      → state m ≡ unreadable
      → (e d : ℕ) × (sys.answer t (lookup_values m 0) ≡ err e)
        × ((u : Trace) → sys.answer u (lookup_single m 0) ≡ err d)

module _ (state : ℕ → MapState) where
  abbrev pub total_at : Option ℕ → ℕ
  total_at none = 0
  total_at (some m) = total (state m)

module _ (floats : Floats) where
  -- What there is for each packet; 0 without a packet.
  abbrev pub average : ℕ → ℕ → floats.Float
  average zero n = floats.of_uint 0
  average (suc packets) n = floats.div (floats.of_uint n) (floats.of_uint (suc packets))

  per_packet-eq :
      (sys : System) (packets n : ℕ) → per_packet sys floats packets n ≡ average packets n
  per_packet-eq sys zero n = ground arith
  per_packet-eq sys (suc packets) n = ground arith

module _ (sys : System) (state : ℕ → MapState) (floats : Floats) where
  -- `Stats` of the totals of the four maps.
  abbrev pub stats_of : Run → Stats floats.Float
  stats_of s =
      let packets = total_at state s.loader.packets_map in
      let loops = total_at state s.loader.loops_map in
      let time_ns = total_at state s.loader.time_map in
      record {
        packets_processed = packets;
        total_loops = loops;
        total_bytes = total_at state s.loader.bytes_map;
        total_time_ns = time_ns;
        loops_per_packet = average floats packets loops;
        avg_time_per_packet = average floats packets time_ns;
      }

module _ (sys : System) (state : ℕ → MapState) (reading : IsReading sys state) where
  sum_per_cpu_map_at :
      (m : ℕ) (s : Run) (x : MapState) → state m ≡ x → (read_counter sys (some m) s).0 ≡ total x
  unfolding read_counter sum_per_cpu_map attempt expect
  sum_per_cpu_map_at m s (per_cpu values) h =
      let (b, p, q) = reading.per_cpu_found s.trace m values h in rw p (rw q (sum_onto-zero values))
  sum_per_cpu_map_at m s (single n) h =
      let (e, p, q) = reading.single_found s.trace m n h in rw p (rw (q _))
  sum_per_cpu_map_at m s unreadable h =
      let (e, d, p, q) = reading.not_found s.trace m h in rw p (rw (q _))

  read_counter-eq : (m : Option ℕ) (s : Run) → (read_counter sys m s).0 ≡ total_at state m
  unfolding read_counter
  read_counter-eq none s = refl
  read_counter-eq (some m) s = sum_per_cpu_map_at m s (state m) refl

  module _ (floats : Floats) where
    read_stats-eq : (s : Run) → (read_stats sys floats s).0 ≡ stats_of sys state floats s
    unfolding read_stats
    read_stats-eq s =
        let s1 : Run = (read_counter sys s.loader.packets_map s).1 in
        let s2 : Run = (read_counter sys s1.loader.loops_map s1).1 in
        let s3 : Run = (read_counter sys s2.loader.bytes_map s2).1 in
        ground (
          arith,
          per_packet-eq floats sys,
          read_counter-eq s.loader.packets_map s,
          read_counter-eq s1.loader.loops_map s1,
          read_counter-eq s2.loader.bytes_map s2,
          read_counter-eq s3.loader.time_map s3,
          read_counter-IsNeutral sys s.loader.packets_map s,
          read_counter-IsNeutral sys s1.loader.loops_map s1,
          read_counter-IsNeutral sys s2.loader.bytes_map s2,
        )

    -- On maps that keep their values while they are read, `GetStats` reports the total of each of
    -- the four maps: the sum over the CPUs, wrapped at 2 ^ 64, the single value of a map that is
    -- not per-CPU, and 0 for a map that is missing or cannot be read; and the loops
    -- and the time over the packets, which are 0 where no packet was seen.
    -- It fails exactly where no collection is held.
    pub get_stats-eq :
        (s : Run)
        → (get_stats sys floats s).0 ≡ (
            if is_some s.loader.collection
            then ok (stats_of sys state floats s)
            else err no_collection)
    unfolding get_stats
    get_stats-eq s = ground (arith, read_stats-eq s)
