-- ===== src/Exporter/Program/Statistics.antt =====
-- The maps of ebpf-exporter/bpf/latency.c, and its helpers that update them. An entry of the table
-- of interfaces has the values of all CPUs; `bpf_ktime_get_ns` is an input of the programs.
use net_perf_test.Common.{
  ℕ, zero, suc, ◌/◌, ◌-◌, Bool, false, List, [], ◌∷◌, length, ltb, leb, ◌==◌, ◌||◌, if◌then◌else◌,
}
use net_perf_test.Common.Words.{u64_mod, add64}
use net_perf_test.Exporter.Latency.Types.{InterfaceStats}
use net_perf_test.Exporter.Latency.Collect.{no_stats}

abbrev pub latency_bucket_count : ℕ
latency_bucket_count = 16

abbrev pub max_interfaces : ℕ
max_interfaces = 256

pub record PacketTimestamp : Type 0 where
  pub timestamp_ns : ℕ
  pub ifindex : ℕ
  pub len : ℕ

-- For the histogram, the lists are of the buckets, and each has a value for each CPU.
pub record Maps : Type 0 where
  pub packet_timestamps : List (ℕ × PacketTimestamp)
  pub interface_latency_stats : List (ℕ × List InterfaceStats)
  pub latency_histogram : List (List ℕ)
  pub global_packets : List ℕ
  pub global_latency_ns : List ℕ

-- The entry of one CPU, or of one bucket.
abbrev pub update_at {ℓ} : {A : Type ℓ} → ℕ → (A → A) → List A → List A
update_at i f [] = []
update_at zero f (x ∷ xs) = f x ∷ xs
update_at (suc i) f (x ∷ xs) = x ∷ update_at i f xs

unfoldable pub get_latency_bucket : ℕ → ℕ
get_latency_bucket latency_ns =
    let latency_us = latency_ns / 1000 in
    if ltb latency_us 1
    then 0
    else if ltb latency_us 2
    then 1
    else if ltb latency_us 4
    then 2
    else if ltb latency_us 8
    then 3
    else if ltb latency_us 16
    then 4
    else if ltb latency_us 32
    then 5
    else if ltb latency_us 64
    then 6
    else if ltb latency_us 128
    then 7
    else if ltb latency_us 256
    then 8
    else if ltb latency_us 512
    then 9
    else if ltb latency_us 1024
    then 10
    else if ltb latency_us 2048
    then 11
    else if ltb latency_us 4096
    then 12
    else if ltb latency_us 8192
    then 13
    else if ltb latency_us 16384
    then 14
    else 15

unfoldable pub update_histogram : ℕ → ℕ → Maps → Maps
update_histogram cpu latency_ns maps = record maps {
  latency_histogram =
      update_at (get_latency_bucket latency_ns) (update_at cpu (λ n. add64 n 1))
        maps.latency_histogram;
}

pub data Hook : Type 0 where
  xdp tc_ingress tc_egress : Hook

abbrev pub count_hook : Hook → InterfaceStats → InterfaceStats
count_hook xdp v = record v { xdp_packets = add64 v.xdp_packets 1 }
count_hook tc_ingress v = record v { tc_ingress_packets = add64 v.tc_ingress_packets 1 }
count_hook tc_egress v = record v { tc_egress_packets = add64 v.tc_egress_packets 1 }

-- `if (latency_ns > 0)`: the sum, the minimum and the maximum.
abbrev pub count_latency : ℕ → InterfaceStats → InterfaceStats
count_latency latency_ns v = record v {
  latency_ns_total = add64 v.latency_ns_total latency_ns;
  latency_min_ns =
      if ltb latency_ns v.latency_min_ns || v.latency_min_ns == 0
      then latency_ns
      else v.latency_min_ns;
  latency_max_ns = if ltb v.latency_max_ns latency_ns then latency_ns else v.latency_max_ns;
}

-- What a packet changes of the values of its CPU.
unfoldable pub count_packet : Hook → (pkt_len latency_ns : ℕ) → InterfaceStats → InterfaceStats
count_packet hook pkt_len latency_ns v =
    let counted = record v {
      packets_total = add64 v.packets_total 1;
      bytes_total = add64 v.bytes_total pkt_len;
    } in
    count_hook hook (if ltb 0 latency_ns then count_latency latency_ns counted else counted)

-- `new_stats`: the minimum is the largest number until a latency is known.
abbrev pub new_stats : ℕ → InterfaceStats
new_stats latency_ns = record no_stats {
  latency_min_ns = if ltb 0 latency_ns then latency_ns else u64_mod - 1;
  latency_max_ns = latency_ns;
}

abbrev pub zero_stats : ℕ → List InterfaceStats
zero_stats zero = []
zero_stats (suc n) = no_stats ∷ zero_stats n

abbrev pub has_interface : ℕ → List (ℕ × List InterfaceStats) → Bool
has_interface ifindex [] = false
has_interface ifindex ((i, values) ∷ table) =
    let rest = has_interface ifindex table in i == ifindex || rest

abbrev pub update_interface :
    ℕ
    → (List InterfaceStats → List InterfaceStats)
    → List (ℕ × List InterfaceStats)
    → List (ℕ × List InterfaceStats)
update_interface ifindex f [] = []
update_interface ifindex f ((i, values) ∷ table) =
    (i, if i == ifindex then f values else values) ∷ update_interface ifindex f table

-- An interface that is not in the table is added, with the new values on this CPU and zeros on the
-- others, unless the table is full; then nothing is counted.
unfoldable pub add_interface :
    (cpus cpu ifindex latency_ns : ℕ)
    → List (ℕ × List InterfaceStats)
    → List (ℕ × List InterfaceStats)
add_interface cpus cpu ifindex latency_ns table =
    if has_interface ifindex table || leb max_interfaces (length table)
    then table
    else (ifindex, update_at cpu (λ _. new_stats latency_ns) (zero_stats cpus)) ∷ table

unfoldable pub update_interface_stats :
    (cpus cpu ifindex pkt_len latency_ns : ℕ) → Hook → Maps → Maps
update_interface_stats cpus cpu ifindex pkt_len latency_ns hook maps = record maps {
  interface_latency_stats =
      update_interface ifindex (update_at cpu (count_packet hook pkt_len latency_ns))
        (add_interface cpus cpu ifindex latency_ns maps.interface_latency_stats);
}

unfoldable pub update_global_stats : ℕ → ℕ → Maps → Maps
update_global_stats cpu latency_ns maps = record maps {
  global_packets = update_at cpu (λ n. add64 n 1) maps.global_packets;
  global_latency_ns =
      if ltb 0 latency_ns
      then update_at cpu (λ n. add64 n latency_ns) maps.global_latency_ns
      else maps.global_latency_ns;
}
