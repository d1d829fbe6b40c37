-- ===== src/Exporter/Program/Tests.antt =====
-- The theorems on ebpf-exporter/bpf/latency.c at concrete data: a frame with an Ethernet header only.
use net_perf_test.Common.{ℕ, ◌*◌, ◌≤◌, ◌<◌, ◌^◌, ◌≡◌, refl, arith, List, [], ◌∷◌, All, length}
use net_perf_test.Exporter.Latency.Collect.{no_stats, aggregate}
use net_perf_test.Exporter.Collector.Collect.{histogram_buckets}
use net_perf_test.Exporter.Program.Hash.{ethernet_hash, calculate_packet_hash}
use net_perf_test.Exporter.Program.Statistics.{
  get_latency_bucket, count_packet, add_interface, update_interface_stats,
}
use net_perf_test.Exporter.Program.Packets.{
  Packet, xdp_latency_ingress, Event, at_xdp, at_tc_ingress, at_tc_egress, evicted, run_events,
  fresh_maps,
}
use net_perf_test.Exporter.Program.Buckets.{least_of, get_latency_bucket-bounds}
use net_perf_test.Exporter.Program.Unmeasured.{IsBlank}
use net_perf_test.Exporter.Program.XdpOnly.{xdp_only-IsBlank}

abbrev frame : List ℕ
frame = 1 ∷ 2 ∷ 3 ∷ 4 ∷ 5 ∷ 6 ∷ 7 ∷ 8 ∷ 9 ∷ 10 ∷ 11 ∷ 12 ∷ 8 ∷ 6 ∷ []

frame-hash : calculate_packet_hash frame ≡ 12
unfolding calculate_packet_hash ethernet_hash
frame-hash = refl

abbrev packet : ℕ → ℕ → Packet
packet cpu now = record { cpu = cpu; ifindex = 3; frame = frame; len = 14; now = now }

get_latency_bucket-bounds_example :
    (least_of 11 * 1000 ≤ 1500000)
    × (11 < 15 → 1500000 < 2 ^ 11 * 1000)
    × (11 < length histogram_buckets)
unfolding get_latency_bucket
get_latency_bucket-bounds_example = get_latency_bucket-bounds 1500000

abbrev passing : List Event
passing = at_xdp (packet 0 100) ∷ at_tc_ingress (packet 0 400) ∷ at_tc_egress (packet 1 900) ∷ []

abbrev arriving : List Event
arriving = at_xdp (packet 0 100) ∷ evicted 12 ∷ at_xdp (packet 1 200) ∷ []

-- The interface has an entry then.
arriving-length : length (run_events 2 arriving (fresh_maps 2)).interface_latency_stats ≡ 1
unfolding run_events xdp_latency_ingress calculate_packet_hash ethernet_hash update_interface_stats
    add_interface count_packet
arriving-length = refl

xdp_only-IsBlank_example :
    All
      (λ entry. IsBlank (aggregate no_stats entry.1))
      (run_events 2 arriving (fresh_maps 2)).interface_latency_stats
xdp_only-IsBlank_example = xdp_only-IsBlank 2 arriving (omega arith, (tt, (omega arith, tt)))
