-- ===== src/Reproducer/Runs/Loop.antt =====
-- The monitoring loop of af_packet_reproducer/main.go.
use native.Mathlib.Nat.{zero-add}
use net_perf_test.Common.{
  ℕ, refl, suc, ◌+◌, ◌≡◌, ap, ◌∙◌, arith, Bool, true, false, none, List, [], ◌∷◌, Result, ok, err,
  count_by, length, ◌<>◌,
}
use net_perf_test.Common.Ints.{is_positive}
use net_perf_test.Common.Floats.{Floats}
use net_perf_test.Reproducer.Captures.{Capture, Trace}
use net_perf_test.Reproducer.Stopping.{
  is_kill_of, is_terminate_of, has_process, cleanup_captures_signals,
}
use net_perf_test.Reproducer.Prometheus.Types.{Panic, Config}
use net_perf_test.Reproducer.Prometheus.Request.{api_url}
use net_perf_test.Reproducer.Prometheus.Sampling.{Run}
use net_perf_test.Reproducer.Prometheus.Asked.{Paired}
use net_perf_test.Reproducer.Charts.Types.{Charts}
use net_perf_test.Reproducer.Charts.Saving.{ChartError, save_charts}
use net_perf_test.Reproducer.Monitoring.{
  Options, Host, Event, interrupt, tick, elapsed, Ending, crashed, with_charts, finished, Outcome,
  sample, clean_up, finish, counted, monitor,
}
use net_perf_test.Reproducer.Samples.{IsQuiet, count_active-IsQuiet}
use net_perf_test.Reproducer.Runs.Creation.{sample-IsSampledBy}

-- The events stop the loop behind so many ticks; the end of the duration does so only where there
-- is a duration.
pub data StopsAfter (timed : Bool) : ℕ → List Event → Type 0 where
  at_interrupt : (events : List Event) → StopsAfter timed 0 (interrupt ∷ events)
  at_end : (events : List Event) → timed ≡ true → StopsAfter timed 0 (elapsed ∷ events)
  no_end :
      (n : ℕ) (events : List Event)
      → timed ≡ false
      → StopsAfter timed n events
      → StopsAfter timed n (elapsed ∷ events)
  at_tick :
      (n : ℕ) (events : List Event)
      → StopsAfter timed n events
      → StopsAfter timed (suc n) (tick ∷ events)

-- Each process got the two signals, once for each of its captures.
abbrev pub IsStopped : List Capture → Trace → Trace → Type 0
IsStopped captures t u =
    (p : ℕ)
    → (count_by (is_terminate_of p) u
        ≡ count_by (is_terminate_of p) t + count_by (has_process p) captures)
      × (count_by (is_kill_of p) u ≡ count_by (is_kill_of p) t + count_by (has_process p) captures)

-- A run ends with the error that is printed, or with the panic.
abbrev pub ending_of : Result Panic (Result ChartError (Unit {0})) → Ending
ending_of (ok r) = finished r
ending_of (err p) = crashed p

module _ (floats : Floats) (host : Host floats.Float) (options : Options) (config : Config) where
  open floats use {Float}
  open host use {web, signal, plotter}

  -- A run that has stopped its processes, with `n` samples more, and then saved the charts of all of
  -- them, which is how it ends.
  pub record IsFinished (captures : List Capture) (n : ℕ) (s : Run Float) (o : Outcome Float)
      : Type 0 where
    pub samples : length o.run.collector.points ≡ length s.collector.points + n
    pub ending : o.ending ≡ ending_of (save_charts floats plotter o.run.collector []).0
    pub charts : o.charts ≡ (save_charts floats plotter o.run.collector []).1
    pub stopped : IsStopped captures s.signals o.run.signals

  module _ (paired : Paired floats web) (captures : List Capture) where
    charted-IsFinished :
        (s t : Run Float) (r : Result Panic (Result ChartError (Unit {0}))) (drawn : Charts Float)
        → r ≡ (save_charts floats plotter t.collector []).0
        → drawn ≡ (save_charts floats plotter t.collector []).1
        → t.collector ≡ s.collector
        → IsStopped captures s.signals t.signals
        → IsFinished captures 0 s (with_charts floats host options config t r drawn)
    charted-IsFinished s t (ok r) drawn p q same stopped = record {
      samples = ap (λ c. length c.points) same ∙ omega arith;
      ending = ap ending_of p;
      charts = q;
      stopped = stopped;
    }
    charted-IsFinished s t (err e) drawn p q same stopped = record {
      samples = ap (λ c. length c.points) same ∙ omega arith;
      ending = ap ending_of p;
      charts = q;
      stopped = stopped;
    }

    clean_up-IsFinished :
        (s : Run Float) → IsFinished captures 0 s (clean_up floats host options config captures s)
    unfolding clean_up
    clean_up-IsFinished s =
        charted-IsFinished s _ _ _ refl refl refl
          (λ p. let c = cleanup_captures_signals signal captures s.signals p in (c.0, c.1))

    pub after-IsFinished :
        (m n : ℕ) (s t : Run Float) (o : Outcome Float)
        → length t.collector.points ≡ length s.collector.points + m
        → IsQuiet s.signals t.signals
        → IsFinished captures n t o
        → IsFinished captures (m + n) s o
    after-IsFinished m n s t o e quiet f = record {
      samples = omega (arith, e, f.samples);
      ending = f.ending;
      charts = f.charts;
      stopped = λ p. (
        omega (arith, (quiet p).1, (f.stopped p).0),
        omega (arith, (quiet p).0, (f.stopped p).1),
      );
    }

    finish-IsFinished :
        (s : Run Float)
        → web.new_request (api_url floats web s.collector) ≡ none
        → IsFinished captures 1 s (finish floats host options config captures s)
    unfolding finish
    finish-IsFinished s made =
        let (e, one) =
          sample-IsSampledBy floats host options config paired (length captures) captures s made
            (omega arith) in
        let t = (sample floats host options config captures s).1 in
        rw e (after-IsFinished 1 0 s t _ one.added one.quiet (clean_up-IsFinished t))

    -- In a run whose requests are made, and whose values of Prometheus are pairs: the loop ends at the signal, or at the end of the duration where there is one,
    -- behind `n` ticks. It has added a sample for each tick and one more, has sent each process the
    -- signals to terminate and to kill, once for each of its captures, and has saved the charts of all
    -- samples, with whose result it ends.
    pub monitor-IsFinished :
        (events : List Event) (n : ℕ) (s : Run Float)
        → web.new_request (api_url floats web s.collector) ≡ none
        → StopsAfter (is_positive options.duration) n events
        → IsFinished captures (n + 1) s (monitor floats host options config captures events s)
    unfolding monitor
    monitor-IsFinished _ _ s made (at_interrupt events) = rw (zero-add 1) (finish-IsFinished s made)
    monitor-IsFinished _ _ s made (at_end events e) = rw (zero-add 1, e) (finish-IsFinished s made)
    monitor-IsFinished _ _ s made (no_end n events e h) =
        rw e (monitor-IsFinished events n s made h)
    monitor-IsFinished _ _ s made (at_tick n events h) =
        let t = counted floats host options config captures s in
        let u = (sample floats host options config captures t).1 in
        let (e, one) =
          sample-IsSampledBy floats host options config paired (length captures) captures t made
            (omega arith) in
        let made1 : web.new_request (api_url floats web u.collector) ≡ none =
          ap (λ url. web.new_request (url <> "/api/v1/query")) one.url ∙ made in
        let quiet : IsQuiet s.signals u.signals = λ p. (
          (one.quiet p).0
              ∙ (count_active-IsQuiet floats host options config captures s.signals p).0,
          (one.quiet p).1
              ∙ (count_active-IsQuiet floats host options config captures s.signals p).1,
        ) in
        let shift : suc n + 1 ≡ 1 + (n + 1) = omega arith in
        rw (e, shift)
          (after-IsFinished 1 (n + 1) s u _ one.added quiet (monitor-IsFinished events n u made1 h))
