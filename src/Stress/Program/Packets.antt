-- ===== src/Stress/Program/Packets.antt =====
-- The maps of ebpf-stress/bpf/stress.c, its helpers on them, and its three programs on one packet.
-- `bpf_map_lookup_elem` gives no element (`none`) or the element of the CPU. The clock is an input.
use net_perf_test.Common.{
  ℕ, zero, suc, Bool, true, Option, none, some, List, [], ◌∷◌, ltb, ◌==◌, not, if◌then◌else◌,
}
use net_perf_test.Common.Words.{add64, sub64}
use net_perf_test.Stress.Program.Loop.{max_total_loops, perform_stress_loop}

abbrev pub default_loop_count : ℕ
default_loop_count = 1000

-- The elements under key 0. A map of statistics has one for each CPU.
pub record Maps : Type 0 where
  pub config_loop_count : Option ℕ
  pub config_enabled : Option ℕ
  pub stats_packets : Option (List ℕ)
  pub stats_loops : Option (List ℕ)
  pub stats_bytes : Option (List ℕ)
  pub stats_time_ns : Option (List ℕ)

-- A packet, the CPU that it comes in on, and the two readings of the clock.
pub record Packet : Type 0 where
  pub cpu : ℕ
  pub len : ℕ  -- __u32
  pub start_time : ℕ
  pub end_time : ℕ

unfoldable pub get_loop_count : Maps → ℕ
get_loop_count maps = elim maps.config_loop_count [
  | none ↦ default_loop_count
  | some count ↦ if ltb max_total_loops count then max_total_loops else count
]

unfoldable pub is_enabled : Maps → Bool
is_enabled maps = elim maps.config_enabled [ none ↦ true | some enabled ↦ not (enabled == 0) ]

-- `__sync_fetch_and_add` on the element of one CPU.
unfoldable pub fetch_and_add : ℕ → ℕ → List ℕ → List ℕ
fetch_and_add cpu n [] = []
fetch_and_add zero n (v ∷ vs) = add64 v n ∷ vs
fetch_and_add (suc cpu) n (v ∷ vs) = v ∷ fetch_and_add cpu n vs

-- `if (ptr) __sync_fetch_and_add(ptr, n)`
abbrev pub add_if : ℕ → ℕ → Option (List ℕ) → Option (List ℕ)
add_if cpu n none = none
add_if cpu n (some values) = some (fetch_and_add cpu n values)

unfoldable pub update_stats : (cpu loops bytes time_ns : ℕ) → Maps → Maps
update_stats cpu loops bytes time_ns maps = record maps {
  stats_packets = add_if cpu 1 maps.stats_packets;
  stats_loops = add_if cpu loops maps.stats_loops;
  stats_bytes = add_if cpu bytes maps.stats_bytes;
  stats_time_ns = add_if cpu time_ns maps.stats_time_ns;
}

-- What a program returns to the kernel. For a socket filter it is how much of the packet to keep.
pub data Verdict : Type 0 where
  xdp_pass : Verdict
  tc_act_ok : Verdict
  keep_bytes : ℕ → Verdict

-- The body that the three programs share: they differ in what they return. The result of the loop
-- is not used.
unfoldable pub stress_packet : Verdict → Packet → Maps → Verdict × Maps
stress_packet verdict packet maps =
    if not (is_enabled maps)
    then (verdict, maps)
    else let loop_count = get_loop_count maps in
      let worked = perform_stress_loop loop_count in
      let time_ns = sub64 packet.end_time packet.start_time in
      (verdict, update_stats packet.cpu loop_count packet.len time_ns maps)

unfoldable pub xdp_stress_prog : Packet → Maps → Verdict × Maps
xdp_stress_prog = stress_packet xdp_pass

unfoldable pub tc_stress_prog : Packet → Maps → Verdict × Maps
tc_stress_prog = stress_packet tc_act_ok

unfoldable pub socket_stress_prog : Packet → Maps → Verdict × Maps
socket_stress_prog = stress_packet (keep_bytes 0)

-- Packets one after the other, by any of the programs.
unfoldable pub run_packets : (Packet → Maps → Verdict × Maps) → List Packet → Maps → Maps
run_packets prog [] maps = maps
run_packets prog (packet ∷ packets) maps = run_packets prog packets (prog packet maps).1
