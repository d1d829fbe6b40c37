-- ===== src/Reproducer/Monitoring.antt =====
-- `main` of af_packet_reproducer/main.go and `startTcpdump`: the set-up, the creation of the
-- sockets, and the monitoring loop.
use net_perf_test.Common.{
  ℕ, zero, suc, ◌%◌, Bool, true, false, String, Option, none, some, List, [], ◌∷◌, ◌++◌, Result, ok,
  err, M, pure, throw, ◌>>=◌, ◌>>◌, length, str_eq, ◌==◌, if◌then◌else◌,
}
use net_perf_test.Common.Ints.{ℤ, pos, negsuc, is_positive}
use net_perf_test.Common.Floats.{Floats}
use net_perf_test.Reproducer.Captures.{
  Capture, Call, Trace, count_active_processes, cleanup_captures,
}
use net_perf_test.Reproducer.Prometheus.Types.{
  MetricsCollector, Config, QueryError, Panic, makeslice_negative, ticker_interval, Requests, Web,
}
use net_perf_test.Reproducer.Prometheus.Request.{Answer, test_prometheus_connection}
use net_perf_test.Reproducer.Prometheus.Sampling.{Run, new_metrics_collector, collect}
use net_perf_test.Reproducer.Charts.Types.{Charts, Plotter}
use net_perf_test.Reproducer.Charts.Saving.{ChartError, save_charts}
use net_perf_test.Reproducer.Discovery.{
  Cluster, DiscoverError, Discovered, discover_prometheus, main_pod, setup_port_forward,
}

-- The flags that the run depends on.
pub record Options : Type 0 where
  pub socket_count : ℤ
  pub capture_dir : String
  pub interface : String
  pub duration : ℤ
  pub metrics_dir : String
  pub metrics_interval : ℤ
  pub kubeconfig : String

-- `tcpdump -qnni <interface> -w <dir>/capture_<id>.pcap`
pub record Command : Type 0 where
  pub interface : String
  pub dir : String
  pub id : ℕ

pub data Fatal : Type 0 where
  kubeconfig_required : Fatal
  discovery_failed : DiscoverError → Fatal
  capture_dir_failed metrics_dir_failed client_failed forwarding_failed : ℕ → Fatal
  pod_not_found : Fatal
  connection_failed : QueryError → Fatal

-- What the monitoring loop receives: the signal, a tick, or the end of the duration.
pub data Event : Type 0 where
  interrupt tick elapsed : Event

-- How the run ends; `waiting` is a run that is still in its loop behind the events.
pub data Ending : Type 0 where
  waiting : Ending
  stopped : Fatal → Ending
  crashed : Panic → Ending
  finished : Result ChartError (Unit {0}) → Ending

pub record Outcome (F : Type 0) : Type 0 where
  pub ending : Ending
  pub run : Run F
  pub charts : Charts F

-- What the program runs on. `start` starts a process, with its number or an error; `clock` is the
-- time of a sample by the number of those before, and `start_time` that of the set-up.
pub record Host (F : Type 0) : Type 0 where
  pub cluster : Cluster
  pub web : Web F
  pub plotter : Plotter F
  pub signal : Trace → Call → Result ℕ ℕ
  pub make_dir : String → Option ℕ
  pub start : Command → Result ℕ ℕ
  pub clock : ℕ → ℕ
  pub start_time : ℕ

module _ (floats : Floats) (host : Host floats.Float) (options : Options) where
  open floats use {Float}
  open host use {cluster, web, plotter, signal, make_dir, start, clock}

  abbrev pub capture_of : ℕ → Result ℕ ℕ → Option Capture
  capture_of id (ok process) = some (record { id = id; process = some process })
  capture_of id (err _) = none

  unfoldable pub start_tcpdump : ℕ → Option Capture
  start_tcpdump id =
      capture_of id
        (start (record { interface = options.interface; dir = options.capture_dir; id = id }))

  module _ (config : Config) where
    abbrev pub RunM : Type 0 → Type 0
    RunM A = M (Run Float) Panic A

    unfoldable pub sample : List Capture → RunM (Unit {0})
    sample captures s =
        collect floats web signal captures config (clock (length s.collector.points)) s

    -- Samples are taken at each tenth socket, if it is created.
    abbrev pub sample_at : ℕ → List Capture → RunM (Unit {0})
    sample_at i captures = if i % 10 == 0 then sample captures else pure tt

    -- Socket `i`, and what follows it.
    abbrev pub create_socket :
        ℕ
        → List Capture
        → (List Capture → RunM (List Capture))
        → Option Capture
        → RunM (List Capture)
    create_socket i captures next none = next captures
    create_socket i captures next (some capture) = do
      sample_at i (captures ++ capture ∷ [])
      next (captures ++ capture ∷ [])

    -- `for i := 1; i <= *socketCount; i++`, from `i` on; `left` are left.
    unfoldable pub create_sockets : ℕ → ℕ → List Capture → RunM (List Capture)
    create_sockets zero i captures = pure captures
    create_sockets (suc left) i captures =
        create_socket i captures (create_sockets left (suc i)) (start_tcpdump i)

    abbrev pub ended : Ending → Run Float → Outcome Float
    ended ending s = record { ending = ending; run = s; charts = [] }

    abbrev pub with_charts :
        Run Float → Result Panic (Result ChartError (Unit {0})) → Charts Float → Outcome Float
    with_charts s (ok r) charts = record { ending = finished r; run = s; charts = charts }
    with_charts s (err p) charts = record { ending = crashed p; run = s; charts = charts }

    -- The captures are stopped, and then the charts are saved.
    unfoldable pub clean_up : List Capture → Run Float → Outcome Float
    clean_up captures s =
        let s1 = record s { signals = (cleanup_captures signal captures s.signals).1 } in
        let r = save_charts floats plotter s1.collector [] in with_charts s1 r.0 r.1

    abbrev pub cleaned : List Capture → Result Panic (Unit {0}) → Run Float → Outcome Float
    cleaned captures (ok _) s = clean_up captures s
    cleaned captures (err p) s = ended (crashed p) s

    -- The last sample, and the cleanup.
    unfoldable pub finish : List Capture → Run Float → Outcome Float
    finish captures s = let r = sample captures s in cleaned captures r.0 r.1

    -- The printed count asks each process, too.
    abbrev pub counted : List Capture → Run Float → Run Float
    counted captures s = record s { signals = (count_active_processes signal captures s.signals).1 }

    abbrev pub after_tick :
        (Run Float → Outcome Float) → Result Panic (Unit {0}) → Run Float → Outcome Float
    after_tick next (ok _) s = next s
    after_tick next (err p) s = ended (crashed p) s

    abbrev pub if_timed : Bool → Outcome Float → Outcome Float → Outcome Float
    if_timed true stop next = stop
    if_timed false stop next = next

    -- Without a duration, its channel is nil and never ready.
    unfoldable pub monitor : List Capture → List Event → Run Float → Outcome Float
    monitor captures [] s = ended waiting s
    monitor captures (interrupt ∷ events) s = finish captures s
    monitor captures (elapsed ∷ events) s =
        if_timed (is_positive options.duration) (finish captures s) (monitor captures events s)
    monitor captures (tick ∷ events) s =
        let r = sample captures (counted captures s) in after_tick (monitor captures events) r.0 r.1

    -- `time.NewTicker` panics for an interval that is not positive.
    unfoldable pub monitoring : List Capture → List Event → Run Float → Outcome Float
    monitoring captures events s =
        if is_positive options.metrics_interval
        then monitor captures events s
        else ended (crashed ticker_interval) s

    abbrev pub created : List Event → Result Panic (List Capture) → Run Float → Outcome Float
    created events (ok captures) s = monitoring captures events s
    created events (err p) s = ended (crashed p) s

    -- `make([]*Capture, 0, *socketCount)` panics for a negative count.
    abbrev pub run_sockets : List Event → Run Float → ℤ → Outcome Float
    run_sockets events s (pos n) = let r = create_sockets n 1 [] s in created events r.0 r.1
    run_sockets events s (negsuc _) = ended (crashed makeslice_negative) s

    unfoldable pub run_captures : List Event → Run Float → Outcome Float
    run_captures events s = run_sockets events s options.socket_count

  -- The set-up ends by `log.Fatalf`, or by a panic of the first query.
  abbrev pub SetupM : Type 0 → Type 0
  SetupM A = M Requests Ending A

  abbrev pub no_error : Option ℕ → (ℕ → Fatal) → SetupM (Unit {0})
  no_error none fatal = pure tt
  no_error (some e) fatal = throw (stopped (fatal e))

  abbrev pub found : Result DiscoverError Discovered → SetupM Discovered
  found (ok d) = pure d
  found (err e) = throw (stopped (discovery_failed e))

  abbrev pub found_pod : Option (String × String) → SetupM (String × String)
  found_pod (some pod) = pure pod
  found_pod none = throw (stopped pod_not_found)

  abbrev pub connected : Result Panic (Answer floats web) → Result Ending (Unit {0})
  connected (ok (ok _)) = ok tt
  connected (ok (err e)) = err (stopped (connection_failed e))
  connected (err p) = err (crashed p)

  abbrev pub collector_of : Discovered → MetricsCollector Float
  collector_of d = new_metrics_collector options.metrics_dir d.url d.node_filter host.start_time

  unfoldable pub connect : Discovered → SetupM (Unit {0})
  connect d s =
      let r = test_prometheus_connection floats web (collector_of d) d.config s in
      (connected r.0, r.1)

  unfoldable pub setup : SetupM Discovered
  setup = do
    (if str_eq options.kubeconfig "" then throw (stopped kubeconfig_required) else pure tt)
    d ← found (discover_prometheus cluster options.kubeconfig)
    no_error (make_dir options.capture_dir) capture_dir_failed
    no_error (make_dir options.metrics_dir) metrics_dir_failed
    no_error (cluster.new_client d.config) client_failed
    pod ← found_pod (main_pod cluster d.config)
    no_error (setup_port_forward cluster d.config pod.0 pod.1) forwarding_failed
    connect d
    pure d

  -- The run behind the set-up, which has sent no signals.
  abbrev pub start_run : Discovered → Requests → Run Float
  start_run d requests = record { collector = collector_of d; signals = []; requests = requests }

  abbrev pub begun :
      List Event → Result Ending Discovered → Requests → Result (Ending × Requests) (Outcome Float)
  begun events (err ending) requests = err (ending, requests)
  begun events (ok d) requests = ok (run_captures d.config events (start_run d requests))

  -- The whole program; an error is a run that ends in the set-up.
  unfoldable pub main : List Event → Result (Ending × Requests) (Outcome Float)
  main events = let r = setup [] in begun events r.0 r.1
