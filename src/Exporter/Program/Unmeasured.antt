-- ===== src/Exporter/Program/Unmeasured.antt =====
-- What readInterfaceStats of ebpf-exporter/pkg/latency/collector.go makes of an interface at which
-- ebpf-exporter/bpf/latency.c has measured no latency.
use mathlib.Core.List.{Memᴰ}
use net_perf_test.Common.{
  ℕ, zero, suc, ◌-◌, ◌%◌, ◌≤◌, ◌<◌, ◌≡◌, ◌⊎◌, refl, sym, ap, ◌∙◌, arith, List, [], ◌∷◌, All, map,
  sum, inl, inr,
}
use net_perf_test.Common.Words.{u64_mod}
use net_perf_test.Exporter.Latency.Types.{InterfaceStats}
use net_perf_test.Exporter.Latency.Collect.{no_stats, aggregate}
use net_perf_test.Exporter.Latency.Aggregation.{aggregate-IsAggregate}
use net_perf_test.Exporter.Program.Statistics.{xdp, update_at, count_packet, new_stats, zero_stats}

abbrev pub largest : ℕ
largest = u64_mod - 1

-- The values of a CPU at which only the XDP program has counted.
pub record IsUnmeasured (v : InterfaceStats) : Type 0 where
  pub only_xdp : v.packets_total ≡ v.xdp_packets
  pub no_latency : v.latency_ns_total ≡ 0
  pub no_max : v.latency_max_ns ≡ 0
  pub min_unset : (v.latency_min_ns ≡ 0) ⊎ (v.latency_min_ns ≡ largest)

pub count_packet-IsUnmeasured :
    (pkt_len : ℕ) (v : InterfaceStats)
    → IsUnmeasured v
    → IsUnmeasured (count_packet xdp pkt_len 0 v)
unfolding count_packet
count_packet-IsUnmeasured pkt_len v h = ground arith

abbrev pub minima : List InterfaceStats → List ℕ
minima = map (λ v. v.latency_min_ns)

-- Each CPU is unmeasured, and one of them has the largest number as its minimum.
abbrev pub Unmeasured : List InterfaceStats → Type 0
Unmeasured values = All IsUnmeasured values × Memᴰ largest (minima values)

pub minima-count_packet :
    (cpu pkt_len : ℕ) (values : List InterfaceStats)
    → minima (update_at cpu (count_packet xdp pkt_len 0) values) ≡ minima values
unfolding count_packet
minima-count_packet cpu pkt_len [] = refl
minima-count_packet zero pkt_len (v ∷ values) = refl
minima-count_packet (suc cpu) pkt_len (v ∷ values) =
    ap (λ l. v.latency_min_ns ∷ l) (minima-count_packet cpu pkt_len values)

pub new_stats-mem :
    (cpu cpus : ℕ)
    → cpu < cpus
    → Memᴰ largest (minima (update_at cpu (λ _. new_stats 0) (zero_stats cpus)))
new_stats-mem cpu zero h = elim h [ ]
new_stats-mem zero (suc cpus) h = Memᴰ.head refl
new_stats-mem (suc cpu) (suc cpus) h = Memᴰ.tail (new_stats-mem cpu cpus (omega arith))

-- What `readInterfaceStats` makes of an interface: every packet is one of the XDP program, there is
-- no latency and no maximum, and the minimum is the largest number there is.
pub record IsBlank (total : InterfaceStats) : Type 0 where
  pub only_xdp : total.packets_total ≡ total.xdp_packets
  pub no_latency : total.latency_ns_total ≡ 0
  pub no_max : total.latency_max_ns ≡ 0
  pub min_largest : total.latency_min_ns ≡ largest

sums-same :
    (f g : InterfaceStats → ℕ) (values : List InterfaceStats)
    → All (λ v. f v ≡ g v) values
    → sum (map f values) ≡ sum (map g values)
sums-same f g [] h = refl
sums-same f g (v ∷ values) (p, h) = omega (arith, p, sums-same f g values h)

All-map :
    (P R : InterfaceStats → Type 0) (values : List InterfaceStats)
    → ((v : InterfaceStats) → P v → R v)
    → All P values
    → All R values
All-map P R [] k h = tt
All-map P R (v ∷ values) k (p, h) = (k v p, All-map P R values k h)

sum-no_latency :
    (values : List InterfaceStats)
    → All IsUnmeasured values
    → sum (map (λ v. v.latency_ns_total) values) ≡ 0
sum-no_latency [] h = refl
sum-no_latency (v ∷ values) (p, h) = omega (arith, p.no_latency, sum-no_latency values h)

-- A member of a list of numbers each of which is 0 or `n`.
picked-max :
    (m : ℕ) (values : List InterfaceStats)
    → All IsUnmeasured values
    → Memᴰ m (map (λ v. v.latency_max_ns) values)
    → m ≡ 0
picked-max m [] h p = elim p [ ]
picked-max m (v ∷ values) (q, h) (Memᴰ.head e) = e ∙ q.no_max
picked-max m (v ∷ values) (q, h) (Memᴰ.tail p) = picked-max m values h p

picked-min :
    (m : ℕ) (values : List InterfaceStats)
    → All IsUnmeasured values
    → Memᴰ m (minima values)
    → (m ≡ 0) ⊎ (m ≡ largest)
picked-min m [] h p = elim p [ ]
picked-min m (v ∷ values) (q, h) (Memᴰ.head e) = rw e q.min_unset
picked-min m (v ∷ values) (q, h) (Memᴰ.tail p) = picked-min m values h p

-- The bound on the minima, at the CPU whose minimum is the largest number.
bound-positive :
    (n : ℕ) (values : List InterfaceStats)
    → All (λ v. (v.latency_min_ns ≡ 0) ⊎ ((0 < n) × (n ≤ v.latency_min_ns))) values
    → Memᴰ largest (minima values)
    → 0 < n
bound-positive n [] h p = elim p [ ]
bound-positive n (v ∷ values) (inl z, h) (Memᴰ.head e) = omega (arith, z, e)
bound-positive n (v ∷ values) (inr (q, _), h) (Memᴰ.head e) = q
bound-positive n (v ∷ values) (q, h) (Memᴰ.tail p) = bound-positive n values h p

pub Unmeasured-IsBlank :
    (values : List InterfaceStats) → Unmeasured values → IsBlank (aggregate no_stats values)
Unmeasured-IsBlank values (h, top) =
    let a = aggregate-IsAggregate values in
    let positive =
      bound-positive (aggregate no_stats values).latency_min_ns values a.min_bound top in
    record {
      only_xdp =
          a.packets
          ∙ ap (λ n. n % u64_mod)
              (sums-same _ _ values (All-map IsUnmeasured _ values (λ v u. u.only_xdp) h))
          ∙ sym a.xdp;
      no_latency = a.latency ∙ ap (λ n. n % u64_mod) (sum-no_latency values h);
      no_max = elim a.max_reached [ inl e ↦ e | inr p ↦ picked-max _ values h p ];
      min_largest = elim a.min_reached [
        | inl e ↦ omega (arith, e, positive)
        | inr p ↦ elim (picked-min _ values h p) [ inl e ↦ omega (arith, e, positive) | inr e ↦ e ]
      ];
    }
