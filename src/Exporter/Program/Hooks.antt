-- ===== src/Exporter/Program/Hooks.antt =====
-- The counters of ebpf-exporter/bpf/latency.c for an interface on a CPU, after any events.
use net_perf_test.Common.{
  ℕ, zero, suc, ◌+◌, ◌%◌, ◌≡◌, Bool, true, false, List, [], ◌∷◌, All, ◌==◌, Bool-cases, inl, inr,
  if◌then◌else◌, ◌||◌, leb, length,
}
use net_perf_test.Common.Words.{u64_mod}
use net_perf_test.Exporter.Latency.Types.{InterfaceStats}
use net_perf_test.Exporter.Latency.Collect.{no_stats}
use net_perf_test.Exporter.Program.Statistics.{
  Maps, Hook, max_interfaces, update_at, count_packet, new_stats, zero_stats, has_interface,
  update_interface, add_interface, update_interface_stats,
}

module _ (P : InterfaceStats → Type 0) where
  pub update_at-All :
      (cpu : ℕ) (f : InterfaceStats → InterfaceStats) (values : List InterfaceStats)
      → ((v : InterfaceStats) → P v → P (f v))
      → All P values
      → All P (update_at cpu f values)
  update_at-All cpu f [] k h = tt
  update_at-All zero f (v ∷ values) k (p, h) = (k v p, h)
  update_at-All (suc cpu) f (v ∷ values) k (p, h) = (p, update_at-All cpu f values k h)

  pub zero_stats-All : (n : ℕ) → P no_stats → All P (zero_stats n)
  zero_stats-All zero at_zero = tt
  zero_stats-All (suc n) at_zero = (at_zero, zero_stats-All n at_zero)

module _ (Q : List InterfaceStats → Type 0) where
  -- The values of every interface.
  abbrev pub AllOf : List (ℕ × List InterfaceStats) → Type 0
  AllOf table = All (λ entry. Q entry.1) table

  if-AllOf : (b : Bool) (xs ys : List InterfaceStats) → Q xs → Q ys → Q (if b then xs else ys)
  if-AllOf true xs ys h k = h
  if-AllOf false xs ys h k = k

  update_interface-AllOf :
      (ifindex : ℕ) (f : List InterfaceStats → List InterfaceStats)
      (table : List (ℕ × List InterfaceStats))
      → ((values : List InterfaceStats) → Q values → Q (f values))
      → AllOf table
      → AllOf (update_interface ifindex f table)
  update_interface-AllOf ifindex f [] k h = tt
  update_interface-AllOf ifindex f ((i, values) ∷ table) k (p, h) =
      (if-AllOf (i == ifindex) _ _ (k values p) p, update_interface-AllOf ifindex f table k h)

  add_interface-AllOf :
      (cpus cpu ifindex latency_ns : ℕ) (table : List (ℕ × List InterfaceStats))
      → Q (update_at cpu (λ _. new_stats latency_ns) (zero_stats cpus))
      → AllOf table
      → AllOf (add_interface cpus cpu ifindex latency_ns table)
  unfolding add_interface
  add_interface-AllOf cpus cpu ifindex latency_ns table fresh h =
      elim (Bool-cases (has_interface ifindex table || leb max_interfaces (length table))) [
        | inl e ↦ rw e h
        | inr e ↦ rw e (fresh, h)
      ]

  -- What a packet does to the table.
  pub update_interface_stats-AllOf :
      (cpus cpu ifindex pkt_len latency_ns : ℕ) (hook : Hook) (maps : Maps)
      → Q (update_at cpu (λ _. new_stats latency_ns) (zero_stats cpus))
      → ((values : List InterfaceStats)
          → Q values
          → Q (update_at cpu (count_packet hook pkt_len latency_ns) values))
      → AllOf maps.interface_latency_stats
      → AllOf
          (update_interface_stats cpus cpu ifindex pkt_len latency_ns hook
            maps).interface_latency_stats
  unfolding update_interface_stats
  update_interface_stats-AllOf cpus cpu ifindex pkt_len latency_ns hook maps fresh k h =
      update_interface-AllOf ifindex _ _ k
        (add_interface-AllOf cpus cpu ifindex latency_ns _ fresh h)

-- A packet is counted at each of the programs that it comes to.
abbrev pub IsSplit : InterfaceStats → Type 0
IsSplit v =
    v.packets_total % u64_mod
    ≡ (v.xdp_packets + v.tc_ingress_packets + v.tc_egress_packets) % u64_mod

abbrev pub AllSplit : Maps → Type 0
AllSplit maps = AllOf (All IsSplit) maps.interface_latency_stats
