-- ===== src/Exporter/Program/XdpOnly.antt =====
-- The latency measurement as ebpf-exporter/pkg/latency/collector.go attaches it: of the programs of
-- ebpf-exporter/bpf/latency.c, packets come to the XDP program only.
use net_perf_test.Common.{ℕ, ◌<◌, refl, List, [], ◌∷◌, All, ◌==◌, Bool-cases, inl, inr, length}
use net_perf_test.Exporter.Latency.Types.{InterfaceStats}
use net_perf_test.Exporter.Latency.Collect.{no_stats, aggregate}
use net_perf_test.Exporter.Program.Hash.{calculate_packet_hash}
use net_perf_test.Exporter.Program.Statistics.{Maps, xdp, new_stats}
use net_perf_test.Exporter.Program.Packets.{
  Packet, xdp_latency_ingress, Event, at_xdp, at_tc_ingress, at_tc_egress, evicted, step,
  run_events, fresh_maps,
}
use net_perf_test.Exporter.Program.Hooks.{
  update_at-All, zero_stats-All, AllOf, update_interface_stats-AllOf,
}
use net_perf_test.Exporter.Program.Unmeasured.{
  IsUnmeasured, count_packet-IsUnmeasured, Unmeasured, minima-count_packet, new_stats-mem, IsBlank,
  Unmeasured-IsBlank,
}

module _ (cpus : ℕ) where
  abbrev AllUnmeasured : Maps → Type 0
  AllUnmeasured maps = AllOf Unmeasured maps.interface_latency_stats

  xdp-AllUnmeasured :
      (p : Packet) (maps : Maps)
      → p.cpu < cpus
      → AllUnmeasured maps
      → AllUnmeasured (xdp_latency_ingress cpus p maps)
  unfolding xdp_latency_ingress
  xdp-AllUnmeasured p maps h k = elim (Bool-cases (calculate_packet_hash p.frame == 0)) [
    | inl e ↦ rw e k
    | inr e ↦ rw e (
        update_interface_stats-AllOf Unmeasured cpus p.cpu p.ifindex (length p.frame) 0 xdp _
          (
            update_at-All IsUnmeasured p.cpu (λ _. new_stats 0) _ (λ _ _. fresh)
                (zero_stats-All IsUnmeasured cpus at_zero),
            new_stats-mem p.cpu cpus h,
          )
          (λ values u. (
            update_at-All IsUnmeasured p.cpu _ values (count_packet-IsUnmeasured (length p.frame))
                u.0,
            rw (minima-count_packet p.cpu (length p.frame) values) u.1,
          ))
          k)
  ]
    where
      at_zero : IsUnmeasured no_stats
      at_zero = record { only_xdp = refl; no_latency = refl; no_max = refl; min_unset = inl refl }

      fresh : IsUnmeasured (new_stats 0)
      fresh = record { only_xdp = refl; no_latency = refl; no_max = refl; min_unset = inr refl }

  -- Packets come to the XDP program only, on the CPUs that are there.
  abbrev pub IsAtXdp : Event → Type 0
  IsAtXdp (at_xdp p) = p.cpu < cpus
  IsAtXdp (evicted hash) = Unit
  IsAtXdp _ = ⊥

  step-AllUnmeasured :
      (event : Event) (maps : Maps)
      → IsAtXdp event
      → AllUnmeasured maps
      → AllUnmeasured (step cpus event maps)
  step-AllUnmeasured (at_xdp p) maps h k = xdp-AllUnmeasured p maps h k
  step-AllUnmeasured (evicted hash) maps h k = k
  step-AllUnmeasured (at_tc_ingress p) maps h k = elim h [ ]
  step-AllUnmeasured (at_tc_egress p) maps h k = elim h [ ]

  run_events-AllUnmeasured :
      (events : List Event) (maps : Maps)
      → All IsAtXdp events
      → AllUnmeasured maps
      → AllUnmeasured (run_events cpus events maps)
  unfolding run_events
  run_events-AllUnmeasured [] maps h k = k
  run_events-AllUnmeasured (event ∷ events) maps (p, h) k =
      run_events-AllUnmeasured events _ h (step-AllUnmeasured event maps p k)

-- Where packets come to the XDP program only, which is all that the latency collector attaches,
-- each interface that has any packet is read as: as many packets as at XDP, a latency and a maximum
-- of 0, and the largest number of 64 bits as the minimum.
pub xdp_only-IsBlank :
    (cpus : ℕ) (events : List Event)
    → All (IsAtXdp cpus) events
    → All
        (λ entry. IsBlank (aggregate no_stats entry.1))
        (run_events cpus events (fresh_maps cpus)).interface_latency_stats
xdp_only-IsBlank cpus events h =
    each _ (run_events-AllUnmeasured cpus events (fresh_maps cpus) h tt)
  where
    each :
        (table : List (ℕ × List InterfaceStats))
        → AllOf Unmeasured table
        → All (λ entry. IsBlank (aggregate no_stats entry.1)) table
    each [] k = tt
    each ((i, values) ∷ table) (u, k) = (Unmeasured-IsBlank values u, each table k)
