-- ===== src/Reproducer/Samples.antt =====
-- What a sample of af_packet_reproducer/main.go leaves behind, in its run.
use net_perf_test.Common.{ℕ, ◌≤◌, ◌≡◌, refl, none, List, ok, count_by, length}
use net_perf_test.Common.Floats.{Floats}
use net_perf_test.Reproducer.Captures.{Capture, Trace, count_active_processes}
use net_perf_test.Reproducer.Stopping.{is_kill_of, is_terminate_of, probe_counts}
use net_perf_test.Reproducer.Prometheus.Types.{MetricPoint, Config}
use net_perf_test.Reproducer.Prometheus.Request.{api_url}
use net_perf_test.Reproducer.Prometheus.Sampling.{Run, point_of, add_point}
use net_perf_test.Reproducer.Prometheus.Asked.{Paired, gather-Asks}
use net_perf_test.Reproducer.Prometheus.Collected.{collect-eq, count_active_processes_le}
use net_perf_test.Common.Logs.{Logs}
use net_perf_test.Reproducer.Monitoring.{Options, Host, sample}

-- No process was stopped on the way.
abbrev pub IsQuiet : Trace → Trace → Type 0
IsQuiet s t =
    (p : ℕ)
    → (count_by (is_kill_of p) t ≡ count_by (is_kill_of p) s)
      × (count_by (is_terminate_of p) t ≡ count_by (is_terminate_of p) s)

module _ (floats : Floats) (host : Host floats.Float) (options : Options) (config : Config) where
  open floats use {Float}
  open host use {web, signal}

  -- One point more, with no more active sockets than captures, and no process stopped.
  pub record IsSampled (captures : List Capture) (s t : Run Float) : Type 0 where
    pub point : MetricPoint Float
    pub added : t.collector ≡ add_point floats web point s.collector
    pub active_le : point.active_sockets ≤ length captures
    pub quiet : IsQuiet s.signals t.signals

  pub count_active-IsQuiet :
      (captures : List Capture) (t : Trace) → IsQuiet t (count_active_processes signal captures t).1
  unfolding count_active_processes
  count_active-IsQuiet captures t p = probe_counts signal captures 0 t p

  pub sample-IsSampled :
      (captures : List Capture) (s : Run Float)
      → Paired floats web
      → web.new_request (api_url floats web s.collector) ≡ none
      → ((sample floats host options config captures s).0 ≡ ok tt)
        × IsSampled captures s (sample floats host options config captures s).1
  unfolding sample Logs point_of
  sample-IsSampled captures s paired made =
      let now = host.clock (length s.collector.points) in
      let ((g, e), _) = gather-Asks floats web paired s.collector config made s.requests in
      rw (collect-eq signal floats web captures config now s g e) (
        refl,
        record {
          point = point_of floats web now (count_active_processes signal captures s.signals).0 g;
          added = refl;
          active_le = count_active_processes_le signal captures s.signals;
          quiet = count_active-IsQuiet captures s.signals;
        },
      )
