-- ===== src/Exporter/Web.antt =====
-- The HTTP handlers of ebpf-exporter/cmd/ebpf-exporter/main.go; the one of /metrics is Prometheus's.
use net_perf_test.Common.{
  ℕ, String, Bool, true, false, Option, none, some, List, [], ◌∷◌, ◌<>◌, is_some, if◌then◌else◌,
}
use net_perf_test.Common.Ints.{ℤ}
use net_perf_test.Common.Floats.{Floats}
use net_perf_test.Exporter.Configuration.{Config}
use net_perf_test.Exporter.Collector.Types.{System}
use net_perf_test.Exporter.Collector.Collect.{State}

pub record Response : Type 0 where
  pub status : ℕ
  pub content_type : Option String
  pub body : String

-- `%d` of an integer and `%s` of a duration.
pub record Formats : Type 0 where
  pub decimal : ℤ → String
  pub duration_text : ℤ → String

abbrev spaced : List String → String
spaced [] = ""
spaced (name ∷ names) = " " <> name <> spaced names

-- `%v` of a slice of strings.
abbrev pub slice_text : List String → String
slice_text [] = "[]"
slice_text (name ∷ names) = "[" <> name <> spaced names <> "]"

-- `%t`
abbrev pub bool_text : Bool → String
bool_text true = "true"
bool_text false = "false"

unfoldable pub health_handler : Response
health_handler = record { status = 200; content_type = none; body = "OK" }

module _ (formats : Formats) where
  unfoldable pub config_handler : Config → Response
  config_handler c = record {
    status = 200;
    content_type = some "application/json";
    body =
        "{\n  \"port\": "
        <> formats.decimal c.port
        <> ",\n  \"pin_path\": \""
        <> c.pin_path
        <> "\",\n  \"poll_interval\": \""
        <> formats.duration_text c.poll_interval
        <> "\",\n  \"interfaces\": "
        <> slice_text c.interfaces
        <> ",\n  \"verbose\": "
        <> bool_text c.verbose
        <> "\n}";
  }

module _ (sys : System) (floats : Floats) where
  unfoldable pub ready_handler : State sys floats → Response
  ready_handler c =
      if is_some c.packets_map
      then record { status = 200; content_type = none; body = "Ready" }
      else record {
        status = 503;
        content_type = none;
        body = "Not Ready - eBPF maps not available";
      }
