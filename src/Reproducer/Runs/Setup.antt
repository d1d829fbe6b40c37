-- ===== src/Reproducer/Runs/Setup.antt =====
-- The set-up of af_packet_reproducer/main.go.
use mathlib.Core.Path.{subst}
use net_perf_test.Common.{
  ◌≡◌, refl, ap, none, Option-cases, inl, inr, Result, ok, err, pure, ◌>>=◌, ◌>>◌, bind_ok, bind_at,
}
use net_perf_test.Common.Floats.{Floats}
use net_perf_test.Reproducer.Prometheus.Types.{Config, MetricsCollector, Panic, Requests}
use net_perf_test.Reproducer.Prometheus.Request.{
  Answer, api_url, query_prometheus, test_prometheus_connection,
}
use net_perf_test.Reproducer.Discovery.{Discovered}
use net_perf_test.Reproducer.Monitoring.{
  Options, Host, Ending, collector_of, connected, connect, setup,
}

module _ (floats : Floats) (host : Host floats.Float) (options : Options) where
  open floats use {Float}
  open host use {web, plotter}

  query_prometheus-made :
      (mc : MetricsCollector Float) (config : Config) (s : Requests) (v : Float)
      → (test_prometheus_connection floats web mc config s).0 ≡ ok (ok v)
      → web.new_request (api_url floats web mc) ≡ none
  unfolding test_prometheus_connection query_prometheus
  query_prometheus-made mc config s v h =
      elim (Option-cases (web.new_request (api_url floats web mc))) [
        | inl e ↦ e
        | inr (n, e) ↦ cc (rw e at h)
      ]

  connected-value :
      (r : Result Panic (Answer floats web))
      → connected floats host options r ≡ ok tt
      → (v : Float) × (r ≡ ok (ok v))
  connected-value (ok (ok v)) h = (v, refl)
  connected-value (ok (err e)) h = cc h
  connected-value (err p) h = cc h

  abbrev pub IsMade : Discovered → Type 0
  IsMade d = web.new_request (api_url floats web (collector_of floats host options d)) ≡ none

  discovered_or : Discovered → Result Ending Discovered → Discovered
  discovered_or d (ok e) = e
  discovered_or d (err _) = d

  connect-IsMade :
      (d b : Discovered) (s : Requests)
      → ((connect floats host options d >> pure d) s).0 ≡ ok b
      → IsMade b
  unfolding connect ◌>>=◌ discovered_or
  connect-IsMade d b s h = at (connected floats host options r.0) refl h
    where
      r : Result Panic (Answer floats web) × Requests
      r = test_prometheus_connection floats web (collector_of floats host options d) d.config s

      at :
          (c : Result Ending (Unit {0}))
          → connected floats host options r.0 ≡ c
          → (bind_at (λ _. pure d) c r.1).0 ≡ ok b
          → IsMade b
      at (ok _) e k =
          let (v, q) = connected-value r.0 e in
          subst IsMade (ap (discovered_or d) k)
            (query_prometheus-made (collector_of floats host options d) d.config s v q)
      at (err e) _ k = cc k

  -- A set-up that succeeds has made a request.
  pub setup-IsMade :
      (s : Requests) (d : Discovered) → (setup floats host options s).0 ≡ ok d → IsMade d
  unfolding setup
  setup-IsMade s = bind_ok IsMade _ _ s (λ _ _. bind_ok IsMade _ _ _ (λ d _.
      bind_ok IsMade _ _ _ (λ _ _. bind_ok IsMade _ _ _ (λ _ _. bind_ok IsMade _ _ _ (λ _ _.
        bind_ok IsMade _ _ _ (λ _ _. bind_ok IsMade _ _ _ (λ _ t b. connect-IsMade d b t)))))))
