-- ===== src/Stress/Program/Tests.antt =====
-- The theorems on ebpf-stress/bpf/stress.c at concrete data: two packets on two CPUs.
use net_perf_test.Common.{
  ℕ, ◌+◌, ◌*◌, ◌%◌, ◌≡◌, refl, true, false, none, some, List, [], ◌∷◌, ok, err, arith, sum, ◌==◌,
  if◌then◌else◌, ◌<>◌,
}
use net_perf_test.Common.Words.{u64_mod}
use net_perf_test.Common.Sample.{naturals}
use net_perf_test.Stress.Loader.Types.{Call, lookup_values, Answer, System, Run}
use net_perf_test.Stress.Loader.Readings.{get_stats}
use net_perf_test.Stress.Loader.Totals.{MapState, per_cpu, IsReading}
use net_perf_test.Stress.Program.Loop.{nested_loops}
use net_perf_test.Stress.Program.Rounds.{plain_loop, nested_loops-eq}
use net_perf_test.Stress.Program.Packets.{
  Packet, xdp_pass, get_loop_count, is_enabled, fetch_and_add, update_stats, stress_packet,
  run_packets,
}
use net_perf_test.Stress.Program.Totals.{
  fresh_maps, expected, IsShown, values_of, get_stats-packets,
}
use net_perf_test.Stress.Program.Overcount.{rounds_run, excess, stats_loops-overcount}

nested_loops-eq_example :
    nested_loops (λ idx seen. idx ∷ seen) 99 [] ≡ plain_loop 50 0 (λ idx seen. idx ∷ seen) []
nested_loops-eq_example = nested_loops-eq (λ idx seen. idx ∷ seen) 99 []

abbrev two_packets : List Packet
two_packets =
    record { cpu = 0; len = 60; start_time = 5; end_time = 15 }
    ∷ record { cpu = 1; len = 1500; start_time = 20; end_time = 50 }
    ∷ []

stats_loops-overcount_example :
    sum (
        values_of
          (run_packets
            (stress_packet xdp_pass)
            two_packets
            (fresh_maps (some 120) none 2)).stats_loops)
      % u64_mod
    ≡ 2 * (rounds_run 120 + excess 120) % u64_mod
unfolding is_enabled
stats_loops-overcount_example =
    stats_loops-overcount xdp_pass none 2 120 two_packets (omega arith) refl (omega arith)

-- What the four maps then hold; the loader has them as 1, 2, 3 and 4.
abbrev column : ℕ → List ℕ
column m =
    if m == 1
    then 1 ∷ 1 ∷ []
    else if m == 2
    then 120 ∷ 120 ∷ []
    else if m == 3
    then 60 ∷ 1500 ∷ []
    else 10 ∷ 30 ∷ []

abbrev respond : Call → Answer
respond (lookup_values m _) = ok m
respond _ = err 2

abbrev kernel : System
kernel = record {
  answer = λ t c. respond c;
  map_of = λ c name. none;
  program_of = λ c name. none;
  words = column;
  join = λ a b. a <> "/" <> b;
}

abbrev state : ℕ → MapState
state m = per_cpu (column m)

state-IsReading : IsReading kernel state
state-IsReading = record {
  per_cpu_found = λ t m values h. (m, refl, cc);
  single_found = λ t m n h. cc;
  not_found = λ t m h. cc;
}

abbrev loaded : Run
loaded = record {
  trace = [];
  loader = record {
    config = record {
      hook = "xdp";
      interface_name = "lo";
      loops = 120;
      program = "";
      pin_maps = true;
    };
    collection = some 9;
    xdp_link = some 8;
    tc_link = none;
    socket_link = none;
    loop_count_map = some 5;
    enabled_map = some 6;
    packets_map = some 1;
    loops_map = some 2;
    bytes_map = some 3;
    time_map = some 4;
    tc_iface = none;
    tc_ingress = false;
  };
}

loaded-IsShown :
    IsShown state loaded.loader
      (run_packets (stress_packet xdp_pass) two_packets (fresh_maps (some 120) none 2))
unfolding run_packets stress_packet is_enabled get_loop_count update_stats fetch_and_add
loaded-IsShown = record {
  packets = (1, _, refl, refl, refl);
  loops = (2, _, refl, refl, refl);
  bytes = (3, _, refl, refl, refl);
  time_ns = (4, _, refl, refl, refl);
}

get_stats-packets_example :
    (get_stats kernel naturals loaded).0 ≡ ok (expected kernel naturals 120 two_packets)
unfolding is_enabled get_loop_count
get_stats-packets_example =
    get_stats-packets kernel state state-IsReading naturals xdp_pass (some 120) none 2 two_packets
      loaded refl (omega arith) refl loaded-IsShown
