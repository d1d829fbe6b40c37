-- ===== src/Contract/Counts.antt =====
-- From the packets that ebpf-stress/bpf/stress.c sees to what a round of
-- ebpf-exporter/cmd/ebpf-exporter/main.go reads.
use net_perf_test.Common.{
  ℕ, ◌*◌, ◌%◌, ◌≡◌, refl, sym, ap, ◌∙◌, Option, String, List, [], ◌∷◌, ok, true, length, sum, map,
}
use net_perf_test.Common.Words.{u64_mod, sum_onto-zero}
use net_perf_test.Common.Floats.{Floats}
use net_perf_test.Stress.Loader.Totals.{MapState, per_cpu, total_at}
use net_perf_test.Stress.Program.Packets.{
  Maps, Packet, Verdict, get_loop_count, is_enabled, stress_packet, run_packets,
}
use net_perf_test.Stress.Program.Totals.{
  IsOnCpus, Shown, fresh_maps, duration, columns, run_packets-columns, total-add_all, sum-constant,
  sum-ones,
}
use net_perf_test.Exporter.Collector.Types.{
  InterfaceStats, lookup_values, Trace, System, uptime_seconds,
}
use net_perf_test.Exporter.Collector.Maps.{sum_per_cpu_map}
use net_perf_test.Exporter.Collector.Collect.{
  Totals, Round, State, tracked, set, read_totals, collect_open,
}
use net_perf_test.Exporter.Collector.Rates.{all_tracked, collect_open-tracked}
use net_perf_test.Exporter.Collector.Reconnect.{sum_per_cpu_map-IsKept}

-- The maps keep their values while the exporter reads them.
pub record IsReading (sys : System) (state : ℕ → MapState) : Type 0 where
  pub per_cpu_found :
      (t : Trace) (m : ℕ) (values : List ℕ)
      → state m ≡ per_cpu values
      → (b : ℕ) × (sys.answer t (lookup_values m 0) ≡ ok b) × (sys.words b ≡ values)

-- The totals of the packets that a program sees, for a loop count `n`.
abbrev pub totals_of : ℕ → List Packet → Totals
totals_of n packets = record {
  packets = length packets % u64_mod;
  loops = length packets * n % u64_mod;
  bytes = sum (map (λ x. x.len) packets) % u64_mod;
  time_ns = sum (map duration packets) % u64_mod;
}

-- Each interface by its name, with the totals and the time of the round.
abbrev pub left_with : Totals → ℕ → List (String × InterfaceStats) → List (String × InterfaceStats)
left_with t now [] = []
left_with t now ((name, _) ∷ l) =
    (
      name,
      record {
        last_packets = t.packets;
        last_loops = t.loops;
        last_bytes = t.bytes;
        last_time_ns = t.time_ns;
        last_check = now;
      },
    )
    ∷ left_with t now l

all_tracked-eq :
    (sys : System) (floats : Floats) (t : Totals) (now : ℕ) (l : List (String × InterfaceStats))
    → all_tracked sys floats t now l ≡ left_with t now l
all_tracked-eq sys floats t now [] = refl
all_tracked-eq sys floats t now ((name, stats) ∷ l) =
    ap (λ rest. (name, tracked sys floats t now) ∷ rest) (all_tracked-eq sys floats t now l)

module _ (sys : System) (floats : Floats) (state : ℕ → MapState)
    (reading : IsReading sys state) where
  -- The exporter has the four maps of the program.
  pub record IsShown (c : State sys floats) (maps : Maps) : Type 0 where
    pub packets : Shown state c.packets_map maps.stats_packets
    pub loops : Shown state c.loops_map maps.stats_loops
    pub bytes : Shown state c.bytes_map maps.stats_bytes
    pub time_ns : Shown state c.time_map maps.stats_time_ns

  -- A sum over the CPUs is the total of the map.
  sum_per_cpu_map-total :
      (handle : Option ℕ) (column : Option (List ℕ)) (c : State sys floats)
      → Shown state handle column
      → (sum_per_cpu_map sys handle 0 c).0 ≡ total_at state handle
  unfolding sum_per_cpu_map
  sum_per_cpu_map-total handle column c (m, values, p, q, r) =
      let (b, found, words) = reading.per_cpu_found c.trace m values r in
      rw (p, r, found, words) (sum_onto-zero values)

  sum_at :
      (handle now : Option ℕ) (column : Option (List ℕ)) (c : State sys floats)
      → now ≡ handle
      → Shown state handle column
      → (sum_per_cpu_map sys now 0 c).0 ≡ total_at state handle
  sum_at handle now column c e h = rw e (sum_per_cpu_map-total handle column c h)

  read_totals-total :
      (maps : Maps) (c : State sys floats)
      → IsShown c maps
      → (read_totals sys floats c).0 ≡ record {
        packets = total_at state c.packets_map;
        loops = total_at state c.loops_map;
        bytes = total_at state c.bytes_map;
        time_ns = total_at state c.time_map;
      }
  unfolding read_totals
  read_totals-total maps c h =
      let c1 : State sys floats = (sum_per_cpu_map sys c.packets_map 0 c).1 in
      let c2 : State sys floats = (sum_per_cpu_map sys c1.loops_map 0 c1).1 in
      let c3 : State sys floats = (sum_per_cpu_map sys c2.bytes_map 0 c2).1 in
      let k1 = sum_per_cpu_map-IsKept sys floats c.packets_map 0 c in
      let k2 = sum_per_cpu_map-IsKept sys floats c1.loops_map 0 c1 in
      let k3 = sum_per_cpu_map-IsKept sys floats c2.bytes_map 0 c2 in
      let p = sum_at c.packets_map c.packets_map _ c refl h.packets in
      let l = sum_at c.loops_map c1.loops_map _ c1 k1.same_loops h.loops in
      let b = sum_at c.bytes_map c2.bytes_map _ c2 (k2.same_bytes ∙ k1.same_bytes) h.bytes in
      let t =
        sum_at c.time_map c3.time_map _ c3 (k3.same_time ∙ k2.same_time ∙ k1.same_time) h.time_ns in
      rw (p, l, b, t) refl

  -- The packets that a BPF program of ebpf-stress sees on fresh maps that are enabled are what a
  -- round of the exporter on these maps leaves each of its interfaces with: their number, the loop
  -- count for each, their lengths and their times, modulo 2 ^ 64. Each interface has the totals of
  -- all packets, whichever interface they came in on.
  pub collect_open-packets :
      (verdict : Verdict) (count enabled : Option ℕ) (cpus : ℕ) (packets : List Packet) (r : Round)
      (c : State sys floats)
      → is_enabled (fresh_maps count enabled cpus) ≡ true
      → IsOnCpus cpus packets
      → IsShown c (run_packets (stress_packet verdict) packets (fresh_maps count enabled cpus))
      → (collect_open sys floats r c).interface_stats
        ≡ left_with
            (totals_of (get_loop_count (fresh_maps count enabled cpus)) packets)
            r.now
            c.interface_stats
  collect_open-packets verdict count enabled cpus packets r c on on_cpus shown =
      let n = get_loop_count (fresh_maps count enabled cpus) in
      let after = run_packets-columns verdict count enabled n packets _ _ _ _ on refl in
      let shown : IsShown c (columns count enabled _ _ _ _) = rw (sym after) shown in
      let c1 : State sys floats = set sys floats uptime_seconds (floats.seconds r.uptime) c in
      let shown1 : IsShown c1 (columns count enabled _ _ _ _) = record {
        packets = shown.packets;
        loops = shown.loops;
        bytes = shown.bytes;
        time_ns = shown.time_ns;
      } in
      let p = total-add_all state c.packets_map cpus (λ _. 1) packets on_cpus shown.packets in
      let l = total-add_all state c.loops_map cpus (λ _. n) packets on_cpus shown.loops in
      let b = total-add_all state c.bytes_map cpus (λ x. x.len) packets on_cpus shown.bytes in
      let t = total-add_all state c.time_map cpus duration packets on_cpus shown.time_ns in
      let p : total_at state c.packets_map ≡ length packets % u64_mod =
        p ∙ ap (λ k. k % u64_mod) (sum-ones packets) in
      let l : total_at state c.loops_map ≡ length packets * n % u64_mod =
        l ∙ ap (λ k. k % u64_mod) (sum-constant n packets) in
      let read : (read_totals sys floats c1).0 ≡ totals_of n packets =
        read_totals-total _ c1 shown1 ∙ rw (p, l, b, t) refl in
      collect_open-tracked sys floats r c
      ∙ ap (λ k. all_tracked sys floats k r.now c.interface_stats) read
      ∙ all_tracked-eq sys floats (totals_of n packets) r.now c.interface_stats
