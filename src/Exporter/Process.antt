-- ===== src/Exporter/Process.antt =====
-- `run` of ebpf-exporter/cmd/ebpf-exporter/main.go from the configuration to the end, with the
-- collector's goroutine and the requests of the HTTP server in the order in which they come.
pub mod Handles
pub mod Requests
pub mod Ends
mod Tests
use net_perf_test.Common.{
  ℕ, String, Bool, true, false, Option, none, some, List, [], ◌∷◌, Result, ok, err, str_eq, ◌||◌,
  if◌then◌else◌,
}
use net_perf_test.Common.Ints.{ℤ, is_positive}
use net_perf_test.Common.Floats.{Floats}
use net_perf_test.Exporter.Configuration.{
  YamlConfig, Config, LoadError, load_yaml_config, load_config,
}
use net_perf_test.Exporter.Interfaces.{NetInterface, get_interfaces_to_monitor}
use net_perf_test.Exporter.Registry.{Registry}
use net_perf_test.Exporter.Collector.Metrics.{new_metrics, register_metrics}
use net_perf_test.Exporter.Collector.Types.{InterfaceStats, System, Collector}
use net_perf_test.Exporter.Collector.Maps.{StressMap, LatencyMap, close}
use net_perf_test.Exporter.Collector.Collect.{Round, State, connect, collect, run_rounds}
use net_perf_test.Exporter.Web.{Response, Formats, health_handler, config_handler, ready_handler}

abbrev has_entry : String → List (String × InterfaceStats) → Bool
has_entry name [] = false
has_entry name ((n, _) ∷ entries) = str_eq n name || has_entry name entries

-- `collector.interfaceStats[iface] = &InterfaceStats{LastCheck: time.Now()}` for each interface: a
-- name that is there twice has one entry.
unfoldable pub initial_stats : ℕ → List String → List (String × InterfaceStats)
initial_stats now [] = []
initial_stats now (name ∷ names) =
    let entries = initial_stats now names in
    if has_entry name entries
    then entries
    else (
      name,
      record {
        last_packets = 0;
        last_loops = 0;
        last_bytes = 0;
        last_time_ns = 0;
        last_check = now;
      },
    )
      ∷ entries

pub data Route : Type 0 where
  health ready config : Route

-- A round of the collector's goroutine, or a request.
pub data Event : Type 0 where
  round : Round → Event
  request : Route → Event

-- What happens around the process: the events up to the signal, with those while the server shuts
-- down; and the rounds that the goroutine still makes between `cancel` and `close`, and behind it.
pub record Course : Type 0 where
  pub started : ℕ
  pub order : List StressMap
  pub latency_order : List LatencyMap
  pub events : List Event
  pub late : List Round
  pub last : List Round

-- What the outside provides.
pub record World (S : Type 0) : Type 0 where
  pub parse_duration : String → Option ℤ
  pub read_file : String → Result ℕ String
  pub unmarshal : String → Result ℕ YamlConfig
  pub found_interfaces : Result ℕ (List NetInterface)
  pub registry : Registry S
  pub registered : S
  pub formats : Formats

module _ (sys : System) (floats : Floats) where
  -- The collector that `run` makes.
  unfoldable pub new_collector : ℕ → Config → List String → State sys floats
  new_collector now c interfaces = record {
    pin_path = c.pin_path;
    latency_pin_path = c.latency_pin_path;
    packets_map = none;
    loops_map = none;
    bytes_map = none;
    time_map = none;
    loop_count_map = none;
    latency_packets_map = none;
    latency_ns_map = none;
    latency_histogram_map = none;
    interface_stats = initial_stats now interfaces;
    latency_maps_available = false;
    gauges = [];
    trace = [];
  }

  module _ (formats : Formats) where
    abbrev pub respond : Config → Route → State sys floats → Response
    respond c health s = health_handler
    respond c ready s = ready_handler sys floats s
    respond c config s = config_handler formats c

    -- The events in turn, with the answers to the requests.
    unfoldable pub serve :
        Config → List Event → State sys floats → List (Route × Response) × State sys floats
    serve c [] s = ([], s)
    serve c (round r ∷ events) s = serve c events (collect sys floats r s)
    serve c (request path ∷ events) s =
        let (answers, t) = serve c events s in ((path, respond c path s) ∷ answers, t)

  -- The rounds that the goroutine still makes, with `close` between them.
  unfoldable pub shut_down : Course → State sys floats → State sys floats
  shut_down course s =
      run_rounds sys floats course.last (close sys (run_rounds sys floats course.late s))

  -- How `run` ends: an error of the configuration, a panic while the metrics are registered, a panic
  -- of the ticker, or the orderly end with the answers that were given.
  pub data Ending : Type 0 where
    config_error : LoadError → Ending
    registration_panic : Ending
    ticker_panic : State sys floats → Ending
    stopped : List (Route × Response) → State sys floats → Ending

  module _ {S : Type 0} (world : World S) where
    -- The process once its collector is connected. `time.NewTicker` panics in the goroutine for an
    -- interval that is not positive.
    abbrev pub going : Config → Course → State sys floats → Ending
    going c course s =
        let (answers, t) = serve world.formats c course.events s in
        if is_positive c.poll_interval then stopped answers (shut_down course t) else ticker_panic s

    abbrev pub connected : Config → Course → State sys floats
    connected c course =
        let interfaces = get_interfaces_to_monitor c.interfaces world.found_interfaces in
        connect sys floats c.latency_enabled course.order course.latency_order
          (new_collector course.started c interfaces)

    abbrev pub registered_or_panic : Config → Course → Option S → Ending
    registered_or_panic c course none = registration_panic
    registered_or_panic c course (some _) = going c course (connected c course)

    abbrev pub configured : Course → Result LoadError Config → Ending
    configured course (err e) = config_error e
    configured course (ok c) =
        registered_or_panic c course (register_metrics world.registry new_metrics world.registered)

    -- `loadYAMLConfig` on the files that are there, for the configuration of the flags.
    abbrev pub loaded_config : Config → Result LoadError Config
    loaded_config c =
        load_config world.parse_duration (load_yaml_config world.read_file world.unmarshal) c

    unfoldable pub run : Config → Course → Ending
    run c course = configured course (loaded_config c)
