-- ===== src/Exporter/Program/Packets.antt =====
-- The three programs of ebpf-exporter/bpf/latency.c, and any order of packets at them.
use net_perf_test.Common.{
  ℕ, Option, none, some, List, [], ◌∷◌, ltb, ◌==◌, if◌then◌else◌, length, zero, suc,
}
use net_perf_test.Common.Words.{sub64}
use net_perf_test.Exporter.Program.Hash.{calculate_packet_hash}
use net_perf_test.Exporter.Program.Statistics.{
  PacketTimestamp, Maps, xdp, tc_ingress, tc_egress, latency_bucket_count, update_histogram,
  update_interface_stats, update_global_stats,
}

-- A packet at a program: the CPU, the interface, the bytes that the program may read, the length that
-- the socket buffer has, and the time.
pub record Packet : Type 0 where
  pub cpu : ℕ
  pub ifindex : ℕ
  pub frame : List ℕ
  pub len : ℕ
  pub now : ℕ

abbrev pub remove : ℕ → List (ℕ × PacketTimestamp) → List (ℕ × PacketTimestamp)
remove hash [] = []
remove hash ((h, ts) ∷ table) =
    let rest = remove hash table in if h == hash then rest else (h, ts) ∷ rest

abbrev pub find : ℕ → List (ℕ × PacketTimestamp) → Option PacketTimestamp
find hash [] = none
find hash ((h, ts) ∷ table) = let rest = find hash table in if h == hash then some ts else rest

-- A packet at one of the programs; or the kernel drops an arrival, of which the map keeps only
-- the ones used last.
pub data Event : Type 0 where
  at_xdp at_tc_ingress at_tc_egress : Packet → Event
  evicted : ℕ → Event

module _ (cpus : ℕ) where
  unfoldable pub xdp_latency_ingress : Packet → Maps → Maps
  xdp_latency_ingress p maps =
      let hash = calculate_packet_hash p.frame in
      let ts : PacketTimestamp = record {
        timestamp_ns = p.now;
        ifindex = p.ifindex;
        len = length p.frame;
      } in
      if hash == 0
      then maps
      else update_interface_stats cpus p.cpu p.ifindex (length p.frame) 0 xdp
          (record maps { packet_timestamps = (hash, ts) ∷ remove hash maps.packet_timestamps })

  -- The latency of a packet whose arrival is known; an arrival at time 0 counts as not known.
  abbrev pub known_latency : Packet → Option PacketTimestamp → Option ℕ
  known_latency p none = none
  known_latency p (some ts) =
      if ltb 0 ts.timestamp_ns then some (sub64 p.now ts.timestamp_ns) else none

  abbrev pub ingress_by : Packet → Option ℕ → Maps → Maps
  ingress_by p none maps = update_interface_stats cpus p.cpu p.ifindex p.len 0 tc_ingress maps
  ingress_by p (some latency_ns) maps =
      update_interface_stats cpus p.cpu p.ifindex p.len latency_ns tc_ingress
        (update_global_stats p.cpu latency_ns (update_histogram p.cpu latency_ns maps))

  unfoldable pub tc_latency_ingress : Packet → Maps → Maps
  tc_latency_ingress p maps =
      let hash = calculate_packet_hash p.frame in
      if hash == 0
      then maps
      else ingress_by p (known_latency p (find hash maps.packet_timestamps)) maps

  -- Behind the measurement the arrival is removed.
  abbrev pub egress_by : Packet → ℕ → Option ℕ → Maps → Maps
  egress_by p hash none maps = update_interface_stats cpus p.cpu p.ifindex p.len 0 tc_egress maps
  egress_by p hash (some latency_ns) maps =
      let measured =
        update_global_stats p.cpu latency_ns (update_histogram p.cpu latency_ns maps) in
      update_interface_stats cpus p.cpu p.ifindex p.len latency_ns tc_egress
        (record measured { packet_timestamps = remove hash measured.packet_timestamps })

  unfoldable pub tc_latency_egress : Packet → Maps → Maps
  tc_latency_egress p maps =
      let hash = calculate_packet_hash p.frame in
      if hash == 0
      then maps
      else egress_by p hash (known_latency p (find hash maps.packet_timestamps)) maps

  abbrev pub step : Event → Maps → Maps
  step (at_xdp p) maps = xdp_latency_ingress p maps
  step (at_tc_ingress p) maps = tc_latency_ingress p maps
  step (at_tc_egress p) maps = tc_latency_egress p maps
  step (evicted hash) maps = record maps { packet_timestamps = remove hash maps.packet_timestamps }

  unfoldable pub run_events : List Event → Maps → Maps
  run_events [] maps = maps
  run_events (event ∷ events) maps = run_events events (step event maps)

abbrev pub zeros : ℕ → List ℕ
zeros zero = []
zeros (suc n) = 0 ∷ zeros n

abbrev pub zero_buckets : ℕ → ℕ → List (List ℕ)
zero_buckets cpus zero = []
zero_buckets cpus (suc n) = zeros cpus ∷ zero_buckets cpus n

-- The maps as the kernel makes them.
abbrev pub fresh_maps : ℕ → Maps
fresh_maps cpus = record {
  packet_timestamps = [];
  interface_latency_stats = [];
  latency_histogram = zero_buckets cpus latency_bucket_count;
  global_packets = zeros cpus;
  global_latency_ns = zeros cpus;
}
