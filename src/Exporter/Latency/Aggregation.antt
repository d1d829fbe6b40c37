-- ===== src/Exporter/Latency/Aggregation.antt =====
-- What `readInterfaceStats` of ebpf-exporter/pkg/latency/collector.go makes of the values of the
-- CPUs.
use mathlib.Core.List.{Memᴰ}
use native.Mathlib.Nat.{zero-add}
use net_perf_test.Common.{
  ℕ, ◌+◌, ◌%◌, ◌≤◌, ◌<◌, ◌≡◌, refl, ap, ◌∙◌, ◌⊎◌, inl, inr, List, [], ◌∷◌, arith, map, sum, All,
}
use net_perf_test.Common.Words.{u64_mod, add64}
use net_perf_test.Exporter.Latency.Types.{InterfaceStats}
use net_perf_test.Exporter.Latency.Collect.{no_stats, add_cpu, aggregate}

-- The six counters are sums over the CPUs modulo 2 ^ 64. The largest maximum is one of the CPUs',
-- or 0. The least minimum leaves out the CPUs without one, whose minimum is 0, and is one of the
-- CPUs', or 0.
pub record IsAggregate (values : List InterfaceStats) (total : InterfaceStats) : Type 0 where
  pub packets : total.packets_total ≡ sum (map (λ v. v.packets_total) values) % u64_mod
  pub bytes : total.bytes_total ≡ sum (map (λ v. v.bytes_total) values) % u64_mod
  pub latency : total.latency_ns_total ≡ sum (map (λ v. v.latency_ns_total) values) % u64_mod
  pub xdp : total.xdp_packets ≡ sum (map (λ v. v.xdp_packets) values) % u64_mod
  pub tc_ingress : total.tc_ingress_packets ≡ sum (map (λ v. v.tc_ingress_packets) values) % u64_mod
  pub tc_egress : total.tc_egress_packets ≡ sum (map (λ v. v.tc_egress_packets) values) % u64_mod
  pub max_bound : All (λ v. v.latency_max_ns ≤ total.latency_max_ns) values
  pub max_reached :
      (total.latency_max_ns ≡ 0) ⊎ Memᴰ total.latency_max_ns (map (λ v. v.latency_max_ns) values)
  pub min_bound :
      All
        (λ v.
          (v.latency_min_ns ≡ 0)
          ⊎ ((0 < total.latency_min_ns) × (total.latency_min_ns ≤ v.latency_min_ns)))
        values
  pub min_reached :
      (total.latency_min_ns ≡ 0) ⊎ Memᴰ total.latency_min_ns (map (λ v. v.latency_min_ns) values)

module _ (field : InterfaceStats → ℕ)
    (adds : (t v : InterfaceStats) → field (add_cpu t v) ≡ add64 (field t) (field v)) where
  sum_from :
      (t : InterfaceStats) (values : List InterfaceStats) (n : ℕ)
      → field t ≡ n % u64_mod
      → field (aggregate t values) ≡ (n + sum (map field values)) % u64_mod
  unfolding aggregate
  sum_from t [] n h = omega (arith, h)
  sum_from t (v ∷ values) n h =
      sum_from (add_cpu t v) values (n + field v) (omega (arith, adds t v, h)) ∙ omega arith

  sum_all :
      (values : List InterfaceStats)
      → field no_stats ≡ 0
      → field (aggregate no_stats values) ≡ sum (map field values) % u64_mod
  sum_all values h =
      sum_from no_stats values 0 (omega (arith, h))
      ∙ ap (λ n. n % u64_mod) (zero-add (sum (map field values)))

-- The maximum and the minimum behind the values of more CPUs.
max_grows :
    (t : InterfaceStats) (values : List InterfaceStats)
    → t.latency_max_ns ≤ (aggregate t values).latency_max_ns
unfolding aggregate
max_grows t [] = omega arith
max_grows t (v ∷ values) = ground (arith, max_grows (add_cpu t v) values)

max_bounds :
    (t : InterfaceStats) (values : List InterfaceStats)
    → All (λ v. v.latency_max_ns ≤ (aggregate t values).latency_max_ns) values
unfolding aggregate
max_bounds t [] = tt
max_bounds t (v ∷ values) =
    (ground (arith, max_grows (add_cpu t v) values), max_bounds (add_cpu t v) values)

-- One of the values, or the one at the start.
abbrev Reached : (InterfaceStats → ℕ) → InterfaceStats → List InterfaceStats → ℕ → Type 0
Reached field t values n = (n ≡ field t) ⊎ Memᴰ n (map field values)

module _ (field : InterfaceStats → ℕ)
    (picks : (t v : InterfaceStats)
      → (field (add_cpu t v) ≡ field t) ⊎ (field (add_cpu t v) ≡ field v)) where
  step_keeps :
      (t v : InterfaceStats) (values : List InterfaceStats) (n : ℕ)
      → Reached field (add_cpu t v) values n
      → Reached field t (v ∷ values) n
  step_keeps t v values n (inr p) = inr (Memᴰ.tail p)
  step_keeps t v values n (inl p) = elim (picks t v) [
    | inl q ↦ inl (p ∙ q)
    | inr q ↦ inr (Memᴰ.head (p ∙ q))
  ]

  reached :
      (t : InterfaceStats) (values : List InterfaceStats)
      → Reached field t values (field (aggregate t values))
  unfolding aggregate
  reached t [] = inl refl
  reached t (v ∷ values) = step_keeps t v values _ (reached (add_cpu t v) values)

abbrev AtMost : ℕ → ℕ → Type 0
AtMost n m = (m ≡ 0) ⊎ ((0 < n) × (n ≤ m))

min_shrinks :
    (t : InterfaceStats) (values : List InterfaceStats)
    → AtMost (aggregate t values).latency_min_ns t.latency_min_ns
unfolding aggregate
min_shrinks t [] = ground arith
min_shrinks t (v ∷ values) = ground (arith, min_shrinks (add_cpu t v) values)

min_bounds :
    (t : InterfaceStats) (values : List InterfaceStats)
    → All (λ v. AtMost (aggregate t values).latency_min_ns v.latency_min_ns) values
unfolding aggregate
min_bounds t [] = tt
min_bounds t (v ∷ values) =
    (ground (arith, min_shrinks (add_cpu t v) values), min_bounds (add_cpu t v) values)

-- The loop over the CPUs gives, for any values, the sums modulo 2 ^ 64, the largest maximum and the
-- least minimum that is not 0, each of the last two as one of the values, or 0.
pub aggregate-IsAggregate :
    (values : List InterfaceStats) → IsAggregate values (aggregate no_stats values)
aggregate-IsAggregate values = record {
  packets = sum_all (λ v. v.packets_total) (λ t v. refl) values refl;
  bytes = sum_all (λ v. v.bytes_total) (λ t v. refl) values refl;
  latency = sum_all (λ v. v.latency_ns_total) (λ t v. refl) values refl;
  xdp = sum_all (λ v. v.xdp_packets) (λ t v. refl) values refl;
  tc_ingress = sum_all (λ v. v.tc_ingress_packets) (λ t v. refl) values refl;
  tc_egress = sum_all (λ v. v.tc_egress_packets) (λ t v. refl) values refl;
  max_bound = max_bounds no_stats values;
  max_reached = reached (λ v. v.latency_max_ns) (λ t v. ground arith) no_stats values;
  min_bound = min_bounds no_stats values;
  min_reached = reached (λ v. v.latency_min_ns) (λ t v. ground arith) no_stats values;
}
