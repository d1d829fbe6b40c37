-- ===== src/Reproducer/Prometheus/Types.antt =====
-- The data of the samples of af_packet_reproducer/main.go, over the type of float64, and what
-- net/http, encoding/json and the file system give the requests.
use net_perf_test.Common.{ℕ, String, Option, List, Result}

-- A sample; `timestamp` is in nanoseconds.
pub record MetricPoint (F : Type 0) : Type 0 where
  pub timestamp : ℕ
  pub active_sockets : ℕ
  pub cpu_usage : F
  pub cpu_soft_irq : F
  pub cpu_user : F
  pub cpu_system : F
  pub cpu_idle : F
  pub memory_usage : F
  pub network_rx : F
  pub network_tx : F
  pub network_rx_pps : F
  pub network_tx_pps : F
  pub network_rx_drops : F
  pub network_tx_drops : F
  pub network_rx_errors : F
  pub network_tx_errors : F
  pub soft_irq_netrx : F
  pub soft_irq_nettx : F

-- The client, the forwarded port and the channel that stops it are behind the parameters.
pub record MetricsCollector (F : Type 0) : Type 0 where
  pub points : List (MetricPoint F)
  pub start_time : ℕ
  pub output_dir : String
  pub prometheus_url : String
  pub node_filter : String

pub record CpuMetrics (F : Type 0) : Type 0 where
  pub usage : F
  pub soft_irq : F
  pub user : F
  pub system : F
  pub idle : F

pub record NetworkStats (F : Type 0) : Type 0 where
  pub rx_mb : F
  pub tx_mb : F
  pub rx_pps : F
  pub tx_pps : F
  pub rx_drops : F
  pub tx_drops : F
  pub rx_errors : F
  pub tx_errors : F

pub record SoftIrqStats (F : Type 0) : Type 0 where
  pub netrx : F
  pub nettx : F

-- An element of a `[]interface{}`: a string, or any other value.
pub data Json : Type 0 where
  text : String → Json
  other : Json

pub record Series : Type 0 where
  pub metric : List (String × String)
  pub value : List Json

pub record PrometheusResponse : Type 0 where
  pub status : String
  pub result_type : String
  pub result : List Series

-- `rest.Config`, as far as the program reads it.
pub record Config : Type 0 where
  pub host : String
  pub bearer_token : String
  pub bearer_token_file : String

pub record Request : Type 0 where
  pub url : String
  pub query : String
  pub authorization : Option String

pub record Response : Type 0 where
  pub status_code : ℕ
  pub body : String

pub data QueryError : Type 0 where
  bad_request query_failed decode_failed parse_failed : ℕ → QueryError
  api_status : ℕ → String → QueryError
  unsuccessful : String → QueryError
  invalid_value : QueryError

-- The ways in which the program panics.
pub data Panic : Type 0 where
  index_out_of_range nil_line makeslice_negative ticker_interval : Panic

-- The requests with their answers, the newest first.
abbrev pub Requests : Type 0
Requests = List (Request × Result ℕ Response)

abbrev pub asked : Request × Result ℕ Response → String
asked (request, _) = request.query

-- What the libraries do, errors being numbers: `http.NewRequestWithContext` (its error), the
-- client's `Do`, the JSON decoder, `strconv.ParseFloat`, `os.ReadFile` and `strings.TrimSpace`.
pub record Web (F : Type 0) : Type 0 where
  pub new_request : String → Option ℕ
  pub send : Requests → Request → Result ℕ Response
  pub decode : String → Result ℕ PrometheusResponse
  pub parse_float : String → Result ℕ F
  pub read_file : String → Result ℕ String
  pub trim_space : String → String
