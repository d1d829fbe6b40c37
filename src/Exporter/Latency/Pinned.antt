-- ===== src/Exporter/Latency/Pinned.antt =====
-- What the latency collector reports when it starts from pinned maps
-- (ebpf-exporter/pkg/latency/collector.go).
use net_perf_test.Common.{
  ℕ, zero, suc, ◌≡◌, refl, ◌∙◌, Bool, true, false, Option, none, some, [], ok, err, arith, count_by,
  ◌>>=◌,
}
use net_perf_test.Common.Floats.{Floats}
use net_perf_test.Exporter.Latency.Types.{
  mkdir_all, System, Collector, Gauge, pin_path_failed, set, expect, get_collector, histogram,
  packets, bytes, latency_ns, latency_min, latency_max, latency_avg, xdp, tc_ingress, tc_egress,
  Answer, lookup_values,
}
use net_perf_test.Exporter.Latency.Start.{State, open_pinned_maps, run_with, start}
use net_perf_test.Exporter.Latency.Collect.{
  bucket_count, set_global, summed, sum_per_cpu_array, read_histogram, read_interface_stats,
  read_interfaces, collect_running, collect, after,
}
use net_perf_test.Exporter.Latency.Links.{open_pinned_maps-IsQuiet}

-- The gauges that `readInterfaceStats` sets.
abbrev pub is_of_interface : {F : Type 0} → Gauge × F → Bool
is_of_interface (packets _, _) = true
is_of_interface (bytes _, _) = true
is_of_interface (latency_ns _, _) = true
is_of_interface (latency_min _, _) = true
is_of_interface (latency_max _, _) = true
is_of_interface (latency_avg _, _) = true
is_of_interface (xdp _, _) = true
is_of_interface (tc_ingress _, _) = true
is_of_interface (tc_egress _, _) = true
is_of_interface _ = false

-- No interface is known, and no gauge of one was set.
record IsGlobal {F : Type 0} (c d : Collector F) : Type 0 where
  pub same_names : d.ifindex_to_name ≡ c.ifindex_to_name
  pub same_stats : d.interface_stats ≡ c.interface_stats
  pub none_set : count_by is_of_interface d.gauges ≡ count_by is_of_interface c.gauges

module _ {F : Type 0} where
  IsGlobal-trans : {b c d : Collector F} → IsGlobal b c → IsGlobal c d → IsGlobal b d
  IsGlobal-trans p q = ground arith

module _ (sys : System) (floats : Floats) where
  summed-IsGlobal :
      (m key : ℕ) (r : Answer) (c : State sys floats) → IsGlobal c (summed sys floats m key r c).1
  summed-IsGlobal m key (ok b) c = ground arith
  summed-IsGlobal m key (err _) c = ground arith

  lookup-IsGlobal :
      (m key : ℕ) (c : State sys floats) → IsGlobal c (after sys floats (lookup_values m key) c)
  lookup-IsGlobal m key c = ground arith

  sum_per_cpu_array-IsGlobal :
      (m : Option ℕ) (key : ℕ) (c : State sys floats)
      → IsGlobal c (sum_per_cpu_array sys floats m key c).1
  unfolding sum_per_cpu_array
  sum_per_cpu_array-IsGlobal none key c = ground arith
  sum_per_cpu_array-IsGlobal (some m) key c =
      IsGlobal-trans (lookup-IsGlobal m key c) (summed-IsGlobal m key _ _)

  set_histogram-IsGlobal :
      (i : ℕ) (v : floats.Float) (c : State sys floats) → IsGlobal c (set (histogram i) v c)
  set_histogram-IsGlobal i v c = ground arith

  read_histogram-IsGlobal :
      (i n : ℕ) (c : State sys floats) → IsGlobal c (read_histogram sys floats i n c)
  unfolding read_histogram
  read_histogram-IsGlobal i zero c = ground arith
  read_histogram-IsGlobal i (suc n) c =
      IsGlobal-trans (sum_per_cpu_array-IsGlobal _ i c)
        (IsGlobal-trans (set_histogram-IsGlobal i _ _) (read_histogram-IsGlobal (suc i) n _))

  no_interfaces :
      (m : Option ℕ) (c : State sys floats)
      → c.ifindex_to_name ≡ []
      → count_by is_of_interface (read_interfaces sys floats m c).gauges
        ≡ count_by is_of_interface c.gauges
  unfolding read_interface_stats
  no_interfaces none c h = refl
  no_interfaces (some m) c h = rw h refl

  set_global-IsGlobal :
      (n ns : ℕ) (c : State sys floats) → IsGlobal c (set_global sys floats n ns c)
  set_global-IsGlobal n ns c = ground arith

  collect_running-no_interfaces :
      (c : State sys floats)
      → c.ifindex_to_name ≡ []
      → count_by is_of_interface (collect_running sys floats c).gauges
        ≡ count_by is_of_interface c.gauges
  unfolding collect_running
  collect_running-no_interfaces c h =
      let r = sum_per_cpu_array sys floats c.global_packets 0 c in
      let t = sum_per_cpu_array sys floats r.1.global_latency_ns 0 r.1 in
      let d : State sys floats = set_global sys floats r.0 t.0 t.1 in
      let e : State sys floats = read_histogram sys floats 0 bucket_count d in
      let q : IsGlobal c e = IsGlobal-trans (sum_per_cpu_array-IsGlobal c.global_packets 0 c) (
        IsGlobal-trans (sum_per_cpu_array-IsGlobal r.1.global_latency_ns 0 r.1) (
          IsGlobal-trans (set_global-IsGlobal r.0 t.0 t.1)
            (read_histogram-IsGlobal 0 bucket_count d))) in
      no_interfaces e.interface_stats e (q.same_names ∙ h) ∙ q.none_set

  collect-no_interfaces :
      (c : State sys floats)
      → c.ifindex_to_name ≡ []
      → count_by is_of_interface (collect sys floats c).gauges ≡ count_by is_of_interface c.gauges
  unfolding collect
  collect-no_interfaces c h = ground (arith, collect_running-no_interfaces c h)

  -- A collector that knows no interface yet and starts from the pinned maps is running, and its
  -- next round sets no gauge of any interface: the names are known only where `Start` attaches.
  pub start_pinned-no_interfaces :
      (c : State sys floats) (n : ℕ)
      → c.ifindex_to_name ≡ []
      → (expect sys (mkdir_all c.pin_path) pin_path_failed c).0 ≡ ok n
      → (open_pinned_maps sys floats (expect sys (mkdir_all c.pin_path) pin_path_failed c).1).0
        ≡ ok tt
      → ((start sys floats c).1.running ≡ true)
        × (count_by is_of_interface (collect sys floats (start sys floats c).1).gauges
            ≡ count_by is_of_interface c.gauges)
  unfolding start ◌>>=◌ expect get_collector
  start_pinned-no_interfaces c n h k o =
      let d : State sys floats = (expect sys (mkdir_all c.pin_path) pin_path_failed c).1 in
      let opened : State sys floats = (open_pinned_maps sys floats d).1 in
      let q = open_pinned_maps-IsQuiet sys floats d in
      rw k (
        rw o (
          refl,
          collect-no_interfaces (run_with sys floats opened) (q.same_names ∙ h)
              ∙ ground (arith, q.same_gauges),
        ))
