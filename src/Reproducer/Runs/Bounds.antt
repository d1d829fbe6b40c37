-- ===== src/Reproducer/Runs/Bounds.antt =====
-- How many active sockets the monitoring loop of af_packet_reproducer/main.go counts.
use net_perf_test.Common.{
  ℕ, ◌≤◌, ◌≡◌, refl, ap, ◌∙◌, Bool-cases, none, inl, inr, List, [], ◌∷◌, Result, ok, err, length,
  ◌<>◌,
}
use net_perf_test.Common.Ints.{is_positive}
use net_perf_test.Common.Floats.{Floats}
use net_perf_test.Reproducer.Captures.{Capture}
use net_perf_test.Reproducer.Prometheus.Types.{Config, Panic}
use net_perf_test.Reproducer.Charts.Types.{Charts}
use net_perf_test.Reproducer.Prometheus.Request.{api_url}
use net_perf_test.Reproducer.Prometheus.Sampling.{Run}
use net_perf_test.Reproducer.Prometheus.Asked.{Paired}
use net_perf_test.Reproducer.Charts.Saving.{ChartError}
use net_perf_test.Reproducer.Monitoring.{
  Options, Host, Event, interrupt, tick, elapsed, sample, clean_up, finish, counted, with_charts,
  monitor,
}
use net_perf_test.Reproducer.Runs.Creation.{Bounded, sample-IsSampledBy}

module _ (floats : Floats) (host : Host floats.Float) (options : Options) (config : Config) where
  open floats use {Float}
  open host use {web}

  module _ (paired : Paired floats web) (captures : List Capture) where
    with_charts-run :
        (s : Run Float) (r : Result Panic (Result ChartError (Unit {0}))) (charts : Charts Float)
        → (with_charts floats host options config s r charts).run ≡ s
    with_charts-run s (ok r) charts = refl
    with_charts-run s (err p) charts = refl

    finish-Bounded :
        (c : ℕ) (s : Run Float)
        → web.new_request (api_url floats web s.collector) ≡ none
        → length captures ≤ c
        → Bounded floats host options c s
        → Bounded floats host options c (finish floats host options config captures s).run
    unfolding finish clean_up
    finish-Bounded c s made h b =
        let (e, one) = sample-IsSampledBy floats host options config paired c captures s made h in
        rw (e, with_charts-run) (one.bounded b)

    pub monitor-Bounded :
        (c : ℕ) (events : List Event) (s : Run Float)
        → web.new_request (api_url floats web s.collector) ≡ none
        → length captures ≤ c
        → Bounded floats host options c s
        → Bounded floats host options c (monitor floats host options config captures events s).run
    unfolding monitor finish clean_up
    monitor-Bounded c [] s made h b = b
    monitor-Bounded c (interrupt ∷ events) s made h b = finish-Bounded c s made h b
    monitor-Bounded c (elapsed ∷ events) s made h b =
        elim (Bool-cases (is_positive options.duration)) [
          | inl e ↦ rw e (finish-Bounded c s made h b)
          | inr e ↦ rw e (monitor-Bounded c events s made h b)
        ]
    monitor-Bounded c (tick ∷ events) s made h b =
        let t = counted floats host options config captures s in
        let (e, one) = sample-IsSampledBy floats host options config paired c captures t made h in
        let u = (sample floats host options config captures t).1 in
        rw e (
          monitor-Bounded c events u
            (ap (λ url. web.new_request (url <> "/api/v1/query")) one.url ∙ made) h (one.bounded b))
