-- ===== src/Reproducer/Prometheus/Collected.antt =====
-- What `Collect` of af_packet_reproducer/main.go adds to the samples.
use net_perf_test.Common.{
  ℕ, ◌+◌, ◌≤◌, ◌≡◌, refl, ap, arith, false, none, Option-cases, inl, inr, List, [], ◌∷◌, map,
  length, Result, ok, bind_value, str_eq,
}
use net_perf_test.Common.Floats.{Floats}
use net_perf_test.Common.Logs.{onto, Logs}
use net_perf_test.Reproducer.Captures.{
  Capture, Call, probe, Trace, called, succeeded, signal_each, count_active_processes,
}
use net_perf_test.Reproducer.Prometheus.Types.{MetricPoint, Config, Web, asked}
use net_perf_test.Reproducer.Prometheus.Queries.{sample_queries}
use net_perf_test.Reproducer.Prometheus.Request.{api_url}
use net_perf_test.Reproducer.Prometheus.Gather.{
  get_cpu_metrics, get_memory_usage, get_network_stats, get_soft_irq_stats,
}
use net_perf_test.Reproducer.Prometheus.Braces.{has_brace}
use net_perf_test.Reproducer.Prometheus.Refusal.{Refuses, get_cpu_metrics-refused, no_cpu_metrics}
use net_perf_test.Reproducer.Prometheus.Sampling.{
  Run, Gathered, gather, point_of, add_point, collect,
}
use net_perf_test.Reproducer.Prometheus.Asked.{
  Paired, gather-Asks, get_memory_usage-Asks, get_network_stats-Asks, get_soft_irq_stats-Asks,
}

module _ (answer : Trace → Call → Result ℕ ℕ) where
  signal_each_le :
      (signal : ℕ → Call) (captures : List Capture) (n : ℕ) (t : Trace)
      → (signal_each answer signal captures n t).0 ≤ n + length captures
  unfolding signal_each
  signal_each_le signal [] n t = omega arith
  signal_each_le signal (capture ∷ captures) n t = elim (Option-cases capture.process) [
    | inl e ↦ rw e (omega (arith, signal_each_le signal captures n t))
    | inr (p, e) ↦ ground (
      arith,
      signal_each_le signal captures (succeeded answer (answer t (signal p)) n)
          (called answer (signal p) t),
    )
  ]

  -- No more processes are active than there are captures.
  pub count_active_processes_le :
      (captures : List Capture) (t : Trace)
      → (count_active_processes answer captures t).0 ≤ length captures
  unfolding count_active_processes
  count_active_processes_le captures t = omega (arith, signal_each_le probe captures 0 t)

  module _ (floats : Floats) (web : Web floats.Float) where
    open floats use {Float, of_uint}

    module _ (captures : List Capture) (config : Config) (now : ℕ) (s : Run Float) where
      -- The state behind a sample whose queries gave `g`.
      abbrev pub sampled : Gathered floats web → Run Float
      sampled g = record {
        collector =
            add_point floats web
              (point_of floats web now (count_active_processes answer captures s.signals).0 g)
              s.collector;
        signals = (count_active_processes answer captures s.signals).1;
        requests = (gather floats web s.collector config s.requests).1;
      }

      pub collect-eq :
          (g : Gathered floats web)
          → (gather floats web s.collector config s.requests).0 ≡ ok g
          → collect floats web answer captures config now s ≡ (ok tt, sampled g)
      unfolding collect
      collect-eq g h = rw h refl

      module _ (paired : Paired floats web)
          (made : web.new_request (api_url floats web s.collector) ≡ none) where
        -- Where no request is refused by its URL and the values of each answer that decodes are pairs,
        -- `Collect` returns, with the server answering as it may beyond that. It has added one sample, whose number of
        -- active sockets is at most that of the captures, and asked the seventeen queries in order.
        pub collect-one_sample :
            let r = collect floats web answer captures config now s in
            (r.0 ≡ ok tt)
            × ((point : MetricPoint Float) × (r.1.collector
                  ≡ add_point floats web point s.collector)
                × (point.active_sockets ≤ length captures))
            × (map asked r.1.requests
                ≡ onto (sample_queries s.collector.node_filter) (map asked s.requests))
        unfolding Logs point_of
        collect-one_sample =
            let ((g, e), h) = gather-Asks floats web paired s.collector config made s.requests in
            rw (collect-eq g e) (
              refl,
              (
                point_of floats web now (count_active_processes answer captures s.signals).0 g,
                refl,
                count_active_processes_le captures s.signals,
              ),
              h,
            )

        gather-no_cpu :
            Refuses floats web s.collector.node_filter
            → has_brace s.collector.node_filter ≡ false
            → str_eq s.collector.node_filter "" ≡ false
            → (g : Gathered floats web) × ((gather floats web s.collector config s.requests).0
                ≡ ok g)
              × (g.cpu_metrics ≡ no_cpu_metrics floats web)
        unfolding gather Logs
        gather-no_cpu refuses free filtered =
            let ((mem, e1), _) =
              get_memory_usage-Asks floats web paired s.collector config made
                (get_cpu_metrics floats web s.collector config s.requests).1 in
            let s2 =
              (get_memory_usage floats web s.collector config
                (get_cpu_metrics floats web s.collector config s.requests).1).1 in
            let ((net, e2), _) =
              get_network_stats-Asks floats web paired s.collector config made s2 in
            let ((irq, e3), _) =
              get_soft_irq_stats-Asks floats web paired s.collector config made
                (get_network_stats floats web s.collector config s2).1 in
            (
              record {
                cpu_metrics = no_cpu_metrics floats web;
                mem_usage = mem;
                net_stats = net;
                soft_irq_stats = irq;
              },
              bind_value (get_cpu_metrics floats web s.collector config) _ _
                  (get_cpu_metrics-refused floats web s.collector refuses config s.requests free
                    filtered)
                  (bind_value (get_memory_usage floats web s.collector config) _ _ e1 (
                    bind_value (get_network_stats floats web s.collector config) _ _ e2
                      (bind_value (get_soft_irq_stats floats web s.collector config) _ _ e3 refl))),
              refl,
            )

        -- With a server that answers in pairs and refuses those of the queries of the CPU whose braces
        -- are not in order, requests that are made, and a node filter that is not empty and has no
        -- brace, `Collect` returns, and the sample that `Collect` adds has zero for all five percentages
        -- of the CPU, that of the softirqs among them.
        pub collect-no_cpu :
            Refuses floats web s.collector.node_filter
            → has_brace s.collector.node_filter ≡ false
            → str_eq s.collector.node_filter "" ≡ false
            → let r = collect floats web answer captures config now s in
              (r.0 ≡ ok tt)
              × ((point : MetricPoint Float) × (r.1.collector
                    ≡ add_point floats web point s.collector)
                  × (point.cpu_usage ≡ of_uint 0)
                  × (point.cpu_soft_irq ≡ of_uint 0)
                  × (point.cpu_user ≡ of_uint 0)
                  × (point.cpu_system ≡ of_uint 0)
                  × (point.cpu_idle ≡ of_uint 0))
        unfolding point_of
        collect-no_cpu refuses free filtered =
            let (g, e, z) = gather-no_cpu refuses free filtered in
            rw (collect-eq g e) (
              refl,
              (
                point_of floats web now (count_active_processes answer captures s.signals).0 g,
                refl,
                ap (λ c. c.usage) z,
                ap (λ c. c.soft_irq) z,
                ap (λ c. c.user) z,
                ap (λ c. c.system) z,
                ap (λ c. c.idle) z,
              ),
            )
