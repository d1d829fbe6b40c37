-- ===== src/Exporter/Registration.antt =====
-- The metrics of the exporter and those of its latency collector, and the registries that take them.
use net_perf_test.Common.{◌++◌, ℕ, String, true, List, [], ◌≡◌, refl, ap, ◌∙◌, some, ok, err}
use net_perf_test.Exporter.Registry.{
  Metric, Registry, or_panic, register_each-free, register_each-taken, is_free, is_free-onto,
  Untaken, with_names, has_name, all_valid, is_free-append, all_valid-append,
}
use net_perf_test.Exporter.Collector.Metrics.{
  stress_metrics, kernel_metrics, unless_panic, new_metrics as exporter_metrics,
  register_metrics as register_exporter,
}
use net_perf_test.Exporter.Latency.Metrics.{
  registered, new_metrics as latency_metrics, register_metrics as register_latency,
}

-- The lists that `run` of the exporter registers, as one.
abbrev pub exporter_list : List Metric
exporter_list = stress_metrics exporter_metrics ++ kernel_metrics exporter_metrics

module _ {S : Type 0} (registry : Registry S) where
  -- The metrics are valid, and none of them has a name that is taken.
  abbrev pub Accepts : S → List Metric → Type 0
  Accepts s ms = Untaken (registry.names s) ms × (all_valid registry.valid ms ≡ true)

  -- `MustRegister` does not panic where the registry is free for all of the metrics.
  must_register-free :
      (ms : List Metric) (s : S) (names : List String)
      → registry.names s ≡ names
      → is_free names ms ≡ true
      → all_valid registry.valid ms ≡ true
      → (t : S) × (registry.must_register s ms ≡ some t) × (registry.names t ≡ with_names names ms)
  must_register-free ms s names p h v =
      let (t, q, r) = register_each-free registry ms s names p h v in
      (t, registry.must_registers s ms ∙ ap or_panic q, r)

  -- Both lists of the exporter are registered without a panic.
  register_exporter-free :
      (s : S)
      → Accepts s exporter_list
      → (t : S) × (register_exporter registry exporter_metrics s ≡ some t)
        × (registry.names t
            ≡ with_names
                (with_names (registry.names s) (stress_metrics exporter_metrics))
                (kernel_metrics exporter_metrics))
  unfolding register_exporter exporter_metrics stress_metrics kernel_metrics
  register_exporter-free s (untaken, valid) =
      let free = is_free-onto exporter_list [] (registry.names s) refl untaken in
      let (f1, f2) =
        is_free-append (stress_metrics exporter_metrics) (kernel_metrics exporter_metrics)
          (registry.names s) free in
      let (v1, v2) =
        all_valid-append registry.valid (stress_metrics exporter_metrics)
          (kernel_metrics exporter_metrics) valid in
      let (t, p, r) =
        must_register-free (stress_metrics exporter_metrics) s (registry.names s) refl f1 v1 in
      let (u, q, w) = must_register-free (kernel_metrics exporter_metrics) t _ r f2 v2 in
      let continue =
        unless_panic (λ v. registry.must_register v (kernel_metrics exporter_metrics)) in
      (u, ap continue p ∙ q, w)

  -- RegisterMetrics fails at its first metric where that one's name is taken.
  register_latency-taken :
      (s : S)
      → has_name "kernel_stack_packets_total" (registry.names s) ≡ true
      → (e : ℕ) × (register_latency registry latency_metrics s ≡ (err e, s))
  unfolding register_latency registered latency_metrics
  register_latency-taken s h = register_each-taken registry _ _ s h

  register_latency-free :
      (s : S)
      → Accepts s (registered latency_metrics)
      → (t : S) × (register_latency registry latency_metrics s ≡ (ok tt, t))
        × (registry.names t ≡ with_names (registry.names s) (registered latency_metrics))
  unfolding register_latency registered latency_metrics
  register_latency-free s (untaken, valid) =
      let free = is_free-onto (registered latency_metrics) [] (registry.names s) refl untaken in
      register_each-free registry (registered latency_metrics) s (registry.names s) refl free valid

  -- Where the metrics of both packages are valid and none of their names is taken, the latency
  -- collector's RegisterMetrics succeeds, and when it is called again it fails. The exporter's
  -- registration there does not panic, but behind it RegisterMetrics fails. Neither failure registers
  -- anything.
  pub register_metrics-once :
      (s : S)
      → Accepts s (registered latency_metrics)
      → Accepts s exporter_list
      → ((t : S) × (register_latency registry latency_metrics s ≡ (ok tt, t))
          × ((e : ℕ) × (register_latency registry latency_metrics t ≡ (err e, t))))
        × ((t : S) × (register_exporter registry exporter_metrics s ≡ some t)
            × ((e : ℕ) × (register_latency registry latency_metrics t ≡ (err e, t))))
  unfolding registered exporter_metrics stress_metrics kernel_metrics latency_metrics
  register_metrics-once s latency exporter =
      let (t, p, r) = register_latency-free s latency in
      let (u, q, w) = register_exporter-free s exporter in
      let named = has_name "kernel_stack_packets_total" in
      ((t, p, register_latency-taken t (ap named r)), (u, q, register_latency-taken u (ap named w)))
