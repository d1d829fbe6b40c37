-- ===== src/Exporter/Configuration.antt =====
-- The configuration of ebpf-exporter/cmd/ebpf-exporter/main.go: `YAMLConfig`, `Config`,
-- `applyYAMLConfig`, and the choice of the file in `run`.
use net_perf_test.Common.{
  ℕ, String, Bool, true, Option, none, some, List, [], ◌∷◌, ◌++◌, Result, ok, err, ◌&&◌, not,
  str_eq, if◌then◌else◌,
}
use net_perf_test.Common.Ints.{ℤ, is_positive}

abbrev pub default_pin_path : String
default_pin_path = "/sys/fs/bpf/ebpf-stress"

abbrev pub default_latency_pin_path : String
default_latency_pin_path = "/sys/fs/bpf/ebpf-exporter"

pub record ServerSection : Type 0 where
  pub port : ℤ
  pub poll_interval : String

pub record StressSection : Type 0 where
  pub enabled : Bool
  pub pin_path : String

pub record LatencySection : Type 0 where
  pub enabled : Bool
  pub pin_path : String
  pub interfaces : List String

pub record InterfaceEntry : Type 0 where
  pub name : String
  pub enabled : Bool

pub record MetricsSection : Type 0 where
  pub packets_total : Bool
  pub loops_total : Bool
  pub bytes_total : Bool
  pub processing_time_ns_total : Bool
  pub packets_per_second : Bool
  pub loops_per_second : Bool
  pub loops_per_packet : Bool
  pub avg_time_per_packet_ns : Bool
  pub uptime_seconds : Bool
  pub configured_loops : Bool
  pub kernel_stack_latency : Bool
  pub latency_histogram : Bool

pub record LoggingSection : Type 0 where
  pub verbose : Bool
  pub format : String

-- `YAMLConfig`; `ebpf_pin_path` is the old format's `ebpf.pin_path`.
pub record YamlConfig : Type 0 where
  pub server : ServerSection
  pub ebpf_stress : StressSection
  pub ebpf_pin_path : String
  pub latency_measurement : LatencySection
  pub interfaces : List InterfaceEntry
  pub metrics : MetricsSection
  pub logging : LoggingSection

-- `Config`. The interval is in nanoseconds.
pub record Config : Type 0 where
  pub port : ℤ
  pub pin_path : String
  pub poll_interval : ℤ
  pub verbose : Bool
  pub config_file : String
  pub interfaces : List String
  pub yaml_config : Option YamlConfig
  pub latency_enabled : Bool
  pub latency_pin_path : String
  pub latency_interfaces : List String

-- `s != ""`
abbrev pub is_given : String → Bool
is_given s = not (str_eq s "")

-- The loop over the `interfaces` of the file.
unfoldable pub append_enabled : List InterfaceEntry → List String → List String
append_enabled [] names = names
append_enabled (iface ∷ ifaces) names =
    append_enabled ifaces
      (if iface.enabled && is_given iface.name then names ++ (iface.name ∷ []) else names)

pub data LoadError : Type 0 where
  not_read : ℕ → LoadError
  not_parsed : ℕ → LoadError

-- Reading a file is up to the file system, and its parsing to the YAML library.
module _ (read_file : String → Result ℕ String) (unmarshal : String → Result ℕ YamlConfig) where
  abbrev parsed : Result ℕ YamlConfig → Result LoadError YamlConfig
  parsed (ok y) = ok y
  parsed (err e) = err (not_parsed e)

  abbrev read : Result ℕ String → Result LoadError YamlConfig
  read (ok text) = parsed (unmarshal text)
  read (err e) = err (not_read e)

  unfoldable pub load_yaml_config : String → Result LoadError YamlConfig
  load_yaml_config path = read (read_file path)

-- `time.ParseDuration` is not of the program: `none` stands for its errors.
module _ (parse_duration : String → Option ℤ) where
  abbrev pub interval_or : ℤ → Option ℤ → ℤ
  interval_or old none = old
  interval_or old (some d) = d

  -- Each `if` of `applyYAMLConfig` in turn; the second test of the pin path sees the first's result.
  unfoldable pub apply_yaml_config : YamlConfig → Config → Config
  apply_yaml_config y c =
      let pin_path =
        if is_given y.ebpf_stress.pin_path then y.ebpf_stress.pin_path else c.pin_path in
      record c {
        port = if is_positive y.server.port then y.server.port else c.port;
        poll_interval =
            if is_given y.server.poll_interval
            then interval_or c.poll_interval (parse_duration y.server.poll_interval)
            else c.poll_interval;
        pin_path =
            if is_given y.ebpf_pin_path && str_eq pin_path "" then y.ebpf_pin_path else pin_path;
        verbose = if y.logging.verbose then true else c.verbose;
        latency_enabled = y.latency_measurement.enabled;
        latency_pin_path =
            if is_given y.latency_measurement.pin_path
            then y.latency_measurement.pin_path
            else default_latency_pin_path;
        latency_interfaces = y.latency_measurement.interfaces;
        interfaces = append_enabled y.interfaces c.interfaces;
      }

  -- `config.YAMLConfig = yamlConfig; applyYAMLConfig(yamlConfig)`
  abbrev pub adopt : YamlConfig → Config → Config
  adopt y c = apply_yaml_config y (record c { yaml_config = some y })

  module _ (load_yaml_config : String → Result LoadError YamlConfig) where
    abbrev pub default_configs : List String
    default_configs = "ebpf-exporter.yaml" ∷ "/etc/ebpf-exporter/ebpf-exporter.yaml" ∷ []

    -- The first default file that loads is adopted.
    unfoldable pub try_default_configs : List String → Config → Config
    try_default_configs [] c = c
    try_default_configs (path ∷ paths) c =
        let rest = try_default_configs paths c in
        elim (load_yaml_config path) [ ok y ↦ adopt y c | err _ ↦ rest ]

    abbrev given_file : Result LoadError YamlConfig → Config → Result LoadError Config
    given_file (ok y) c = ok (adopt y c)
    given_file (err e) c = err e

    -- The beginning of `run`: a file that is named must load.
    unfoldable pub load_config : Config → Result LoadError Config
    unfolding try_default_configs
    load_config c =
        if is_given c.config_file
        then given_file (load_yaml_config c.config_file) c
        else ok (try_default_configs default_configs c)
