-- ===== src/Reproducer/Runs/Whole.antt =====
-- Whole runs of af_packet_reproducer/main.go, from its set-up to its end.
use mathlib.Core.Path.{subst}
use native.Mathlib.Nat.{zero-add}
use net_perf_test.Common.{
  ℕ, ◌+◌, ◌≤◌, ◌≡◌, refl, ap, ◌∙◌, arith, true, none, inl, inr, List, [], Result, ok, err,
  Bool-cases, ◌<>◌, All, length,
}
use net_perf_test.Common.Ints.{pos, is_positive}
use net_perf_test.Common.Floats.{Floats}
use net_perf_test.Reproducer.Captures.{Capture}
use net_perf_test.Reproducer.Prometheus.Types.{Requests}
use net_perf_test.Reproducer.Prometheus.Request.{api_url}
use net_perf_test.Reproducer.Prometheus.Sampling.{Run, new_metrics_collector}
use net_perf_test.Reproducer.Prometheus.Asked.{Paired}
use net_perf_test.Reproducer.Charts.Saving.{save_charts}
use net_perf_test.Reproducer.Discovery.{Discovered}
use net_perf_test.Reproducer.Monitoring.{
  Options, Host, Event, Ending, Outcome, create_sockets, monitoring, created, run_sockets,
  run_captures, setup, begun, start_run, main,
}
use net_perf_test.Reproducer.Runs.Setup.{IsMade, setup-IsMade}
use net_perf_test.Reproducer.Runs.Creation.{
  Bounded, IsSampledBy, started, tenths, create_sockets-Created,
}
use net_perf_test.Reproducer.Runs.Loop.{
  StopsAfter, IsStopped, ending_of, monitor-IsFinished, after-IsFinished,
}
use net_perf_test.Reproducer.Runs.Bounds.{monitor-Bounded}

module _ (floats : Floats) (host : Host floats.Float) (options : Options) where
  open floats use {Float}
  open host use {web, plotter}

  -- What holds of each run behind a set-up that made a request holds of the whole program's.
  main-ends :
      (P : Outcome Float → Type 0) (events : List Event) (o : Outcome Float)
      → ((d : Discovered) (requests : Requests)
          → IsMade floats host options d
          → P (
              run_captures floats host options d.config events
                (start_run floats host options d requests)))
      → main floats host options events ≡ ok o
      → P o
  unfolding main
  main-ends P events o holds h = at (setup floats host options []).0 refl h
    where
      outcome_or : Result (Ending × Requests) (Outcome Float) → Outcome Float
      outcome_or (ok p) = p
      outcome_or (err _) = o

      at :
          (r : Result Ending Discovered)
          → (setup floats host options []).0 ≡ r
          → begun floats host options events r (setup floats host options []).1 ≡ ok o
          → P o
      at (ok d) e k =
          subst P (ap outcome_or k) (holds d _ (setup-IsMade floats host options [] d e))
      at (err e) _ k = cc k

  -- The captures of the processes that start, out of `n`.
  abbrev pub made_captures : ℕ → List Capture
  made_captures n = started floats host options n 1

  -- What a run with `n` sockets has done at its end, with `total` samples.
  pub record IsDone (n total : ℕ) (o : Outcome Float) : Type 0 where
    pub samples : length o.run.collector.points ≡ total
    pub ending : o.ending ≡ ending_of (save_charts floats plotter o.run.collector []).0
    pub charts : o.charts ≡ (save_charts floats plotter o.run.collector []).1
    pub stopped : IsStopped (made_captures n) [] o.run.signals

  module _ (paired : Paired floats web) (n : ℕ) (count : options.socket_count ≡ pos n) where
    run-IsSampledBy :
        (d : Discovered) (requests : Requests)
        → IsMade floats host options d
        → let r =
            create_sockets floats host options d.config n 1 []
              (start_run floats host options d requests) in
          (r.0 ≡ ok (made_captures n))
          × IsSampledBy floats host options
              (length (made_captures n))
              (tenths floats host options n 1)
              (start_run floats host options d requests)
              r.1
    run-IsSampledBy d requests made =
        create_sockets-Created floats host options d.config paired (length (made_captures n)) n 1 []
          _ made (omega arith)

    -- The state behind the creation of the sockets.
    behind_creation : Discovered → Requests → Run Float
    behind_creation d requests =
        (create_sockets floats host options d.config n 1 []
          (start_run floats host options d requests)).1

    run_captures-monitoring :
        (d : Discovered) (requests : Requests) (events : List Event)
        → IsMade floats host options d
        → run_captures floats host options d.config events
            (start_run floats host options d requests)
          ≡ monitoring floats host options d.config
              (made_captures n)
              events
              (behind_creation d requests)
    unfolding run_captures behind_creation
    run_captures-monitoring d requests events made =
        let s = start_run floats host options d requests in
        ap (run_sockets floats host options d.config events s) count
        ∙ ap (λ r. created floats host options d.config events r (behind_creation d requests))
            (run-IsSampledBy d requests made).0

    created_url :
        (d : Discovered) (requests : Requests)
        → IsMade floats host options d
        → web.new_request (api_url floats web (behind_creation d requests).collector) ≡ none
    unfolding behind_creation
    created_url d requests made =
        ap (λ url. web.new_request (url <> "/api/v1/query")) (run-IsSampledBy d requests made).1.url
        ∙ made

    run-Bounded :
        (d : Discovered) (requests : Requests) (events : List Event)
        → IsMade floats host options d
        → Bounded floats host options
            (length (made_captures n))
            (run_captures floats host options d.config events
              (start_run floats host options d requests)).run
    unfolding monitoring behind_creation new_metrics_collector
    run-Bounded d requests events made =
        let t = behind_creation d requests in
        let b : Bounded floats host options (length (made_captures n)) t =
          (run-IsSampledBy d requests made).1.bounded tt in
        elim (Bool-cases (is_positive options.metrics_interval)) [
          | inl e ↦
              rw (run_captures-monitoring d requests events made, e)
                (monitor-Bounded floats host options d.config paired (made_captures n)
                  (length (made_captures n)) events t (created_url d requests made) (omega arith) b)
          | inr e ↦ rw (run_captures-monitoring d requests events made, e) b
        ]

    -- In a run of the program whose set-up succeeds, each sample counts at most as many active
    -- sockets as processes were started, whatever the events and however the run ends. The values of
    -- each answer of Prometheus that decodes are taken to be pairs, and the number of sockets not to be negative.
    pub main-Bounded :
        (events : List Event) (o : Outcome Float)
        → main floats host options events ≡ ok o
        → All (λ point. point.active_sockets ≤ length (made_captures n)) o.run.collector.points
    main-Bounded events o =
        main-ends (λ o. Bounded floats host options (length (made_captures n)) o.run) events o
          (λ d requests made. run-Bounded d requests events made)

    run-IsDone :
        (k : ℕ) (d : Discovered) (requests : Requests) (events : List Event)
        → IsMade floats host options d
        → is_positive options.metrics_interval ≡ true
        → StopsAfter (is_positive options.duration) k events
        → IsDone n (tenths floats host options n 1 + (k + 1)) (
            run_captures floats host options d.config events
              (start_run floats host options d requests))
    unfolding monitoring behind_creation new_metrics_collector
    run-IsDone k d requests events made positive stops =
        let t = behind_creation d requests in
        let one = (run-IsSampledBy d requests made).1 in
        let f =
          after-IsFinished floats host options d.config paired (made_captures n)
            (tenths floats host options n 1) (k + 1) (start_run floats host options d requests) t _
            one.added one.quiet
            (monitor-IsFinished floats host options d.config paired (made_captures n) events k t
              (created_url d requests made) stops) in
        rw (run_captures-monitoring d requests events made, positive)
          (record {
            samples = f.samples ∙ zero-add (tenths floats host options n 1 + (k + 1));
            ending = f.ending;
            charts = f.charts;
            stopped = f.stopped;
          })

    -- A run of the program whose set-up succeeds and whose interval is positive ends, where the signal
    -- or the end of the duration comes behind `k` ticks: it has a sample for each tenth socket that was
    -- created, one for each tick and one more, has sent each started process the signals to terminate
    -- and to kill once, and has then saved the charts of all samples, with whose result it ends. The
    -- values of each answer of Prometheus that decodes are taken to be pairs, and the number of
    -- sockets not to be negative.
    pub main-IsDone :
        (k : ℕ) (events : List Event) (o : Outcome Float)
        → is_positive options.metrics_interval ≡ true
        → StopsAfter (is_positive options.duration) k events
        → main floats host options events ≡ ok o
        → IsDone n (tenths floats host options n 1 + (k + 1)) o
    main-IsDone k events o positive stops =
        main-ends (IsDone n (tenths floats host options n 1 + (k + 1))) events o
          (λ d requests made. run-IsDone k d requests events made positive stops)
