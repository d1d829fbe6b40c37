-- ===== src/Contract/Tests.antt =====
-- The agreement of the two programs on the pinned maps, at concrete data.
use net_perf_test.Common.{ℕ, All, ◌<>◌, refl, false, none, [], Result, ok}
use net_perf_test.Stress.Loader.Types as Loader
use net_perf_test.Stress.Loader.Types.{chmod}
use net_perf_test.Stress.Loader.Lifecycle.{new_loader}
use net_perf_test.Exporter.Collector.Types as Exporter
use net_perf_test.Exporter.Collector.Maps.{stats_bytes, stats_packets, open_maps}
use net_perf_test.Common.{ℕ, ◌≡◌, ◌==◌, List, ◌∷◌, some, arith, err, if◌then◌else◌}
use net_perf_test.Common.Sample.{naturals}
use net_perf_test.Stress.Loader.Totals.{MapState, per_cpu}
use net_perf_test.Stress.Program.Packets.{
  Packet, tc_act_ok, get_loop_count, is_enabled, fetch_and_add, update_stats, stress_packet,
  run_packets,
}
use net_perf_test.Stress.Program.Totals.{fresh_maps}
use net_perf_test.Exporter.Collector.Types.{InterfaceStats, lookup_values}
use net_perf_test.Exporter.Collector.Collect.{Round, State, collect_open}
use net_perf_test.Contract.Counts.{IsReading, IsShown, left_with, totals_of, collect_open-packets}
use net_perf_test.Exporter.Configuration.{default_pin_path}
use net_perf_test.Contract.{IsPinned, open_maps-AllPinned}

abbrev loader : Loader.System
loader = record {
  answer = λ t c. ok 0;
  map_of = λ c name. none;
  program_of = λ c name. none;
  words = λ b. [];
  join = λ a b. a <> "/" <> b;
}

abbrev exporter : Exporter.System
exporter = record { answer = λ t c. ok 0; words = λ b. []; join = λ a b. a <> "/" <> b }

abbrev fresh : Loader.Run
unfolding new_loader
fresh =
    new_loader loader
      (record { hook = "xdp"; interface_name = "lo"; loops = 1; program = ""; pin_maps = false })

abbrev unopened : Exporter.Collector ℕ
unopened = record {
  pin_path = default_pin_path;
  latency_pin_path = "";
  packets_map = none;
  loops_map = none;
  bytes_map = none;
  time_map = none;
  loop_count_map = none;
  latency_packets_map = none;
  latency_ns_map = none;
  latency_histogram_map = none;
  interface_stats = [];
  latency_maps_available = false;
  gauges = [];
  trace = [];
}

open_maps-AllPinned_example :
    All
      (IsPinned loader exporter refl fresh)
      (open_maps exporter (stats_bytes ∷ stats_packets ∷ []) unopened).1.trace
open_maps-AllPinned_example =
    open_maps-AllPinned loader exporter refl fresh (stats_bytes ∷ stats_packets ∷ []) unopened refl
      tt

-- Two packets on two CPUs, and what the four maps then hold.
abbrev two_packets : List Packet
two_packets =
    record { cpu = 1; len = 60; start_time = 5; end_time = 15 }
    ∷ record { cpu = 1; len = 40; start_time = 20; end_time = 50 }
    ∷ []

abbrev column : ℕ → List ℕ
column m =
    if m == 1
    then 0 ∷ 2 ∷ []
    else if m == 2
    then 0 ∷ 2000 ∷ []
    else if m == 3
    then 0 ∷ 100 ∷ []
    else 0 ∷ 40 ∷ []

abbrev respond : Exporter.Call → Result ℕ ℕ
respond (lookup_values m _) = ok m
respond _ = err 2

abbrev counting : Exporter.System
counting = record { answer = λ t c. respond c; words = column; join = λ a b. a <> "/" <> b }

abbrev state : ℕ → MapState
state m = per_cpu (column m)

state-IsReading : IsReading counting state
state-IsReading = record { per_cpu_found = λ t m values h. (m, refl, cc) }

abbrev eth0 : InterfaceStats
eth0 = record { last_packets = 0; last_loops = 0; last_bytes = 0; last_time_ns = 0; last_check = 0 }

abbrev connected : State counting naturals
connected = record {
  pin_path = "/sys/fs/bpf/ebpf-stress";
  latency_pin_path = "";
  packets_map = some 1;
  loops_map = some 2;
  bytes_map = some 3;
  time_map = some 4;
  loop_count_map = none;
  latency_packets_map = none;
  latency_ns_map = none;
  latency_histogram_map = none;
  interface_stats = ("eth0", eth0) ∷ ("lo", eth0) ∷ [];
  latency_maps_available = false;
  gauges = [];
  trace = [];
}

connected-IsShown :
    IsShown counting naturals state state-IsReading connected
      (run_packets (stress_packet tc_act_ok) two_packets (fresh_maps none none 2))
unfolding run_packets stress_packet is_enabled get_loop_count update_stats fetch_and_add
connected-IsShown = record {
  packets = (1, _, refl, refl, refl);
  loops = (2, _, refl, refl, refl);
  bytes = (3, _, refl, refl, refl);
  time_ns = (4, _, refl, refl, refl);
}

abbrev round : Round
round = record { order = []; uptime = 1000000000; now = 1000000000 }

collect_open-packets_example :
    (collect_open counting naturals round connected).interface_stats
    ≡ left_with (totals_of 1000 two_packets) 1000000000 connected.interface_stats
unfolding is_enabled get_loop_count
collect_open-packets_example =
    collect_open-packets counting naturals state state-IsReading tc_act_ok none none 2 two_packets
      round connected refl (omega arith) connected-IsShown
