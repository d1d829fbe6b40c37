-- ===== src/Reproducer/Prometheus/Request.antt =====
-- `queryPrometheus` and `testPrometheusConnection` of af_packet_reproducer/main.go.
use net_perf_test.Common.{
  String, Option, none, some, List, [], ◌∷◌, Result, ok, err, M, pure, ◌>>=◌, ◌<>◌, str_eq, not,
  ◌==◌, if◌then◌else◌, ℕ,
}
use net_perf_test.Common.Floats.{Floats}
use net_perf_test.Reproducer.Prometheus.Types.{
  MetricsCollector, Json, text, other, Series, PrometheusResponse, Config, Request, Response,
  QueryError, bad_request, query_failed, decode_failed, parse_failed, api_status, unsuccessful,
  invalid_value, Panic, index_out_of_range, Requests, Web,
}

module _ (floats : Floats) (web : Web floats.Float) where
  open floats use {Float, of_uint}
  open web use {new_request, send, decode, parse_float, read_file, trim_space}

  -- `(float64, error)`
  abbrev pub Answer : Type 0
  Answer = Result QueryError Float

  abbrev pub QueryM : Type 0 → Type 0
  QueryM A = M Requests Panic A

  abbrev pub header_of : Result ℕ String → Option String
  header_of (ok token) = some ("Bearer " <> trim_space token)
  header_of (err _) = none

  unfoldable pub authorization : Config → Option String
  authorization config =
      if not (str_eq config.bearer_token "")
      then some ("Bearer " <> config.bearer_token)
      else if not (str_eq config.bearer_token_file "")
      then header_of (read_file config.bearer_token_file)
      else none

  abbrev pub parsed : Result ℕ Float → Answer
  parsed (ok v) = ok v
  parsed (err e) = err (parse_failed e)

  -- `Value[1].(string)`: a panic, where there is no second element.
  unfoldable pub second_value : List Json → Result Panic Answer
  second_value [] = err index_out_of_range
  second_value (_ ∷ []) = err index_out_of_range
  second_value (_ ∷ text s ∷ _) = ok (parsed (parse_float s))
  second_value (_ ∷ other ∷ _) = ok (err invalid_value)

  unfoldable pub first_value : List Series → Result Panic Answer
  first_value [] = ok (ok (of_uint 0))
  first_value (series ∷ _) = second_value series.value

  unfoldable pub read_decoded : Result ℕ PrometheusResponse → Result Panic Answer
  read_decoded (err e) = ok (err (decode_failed e))
  read_decoded (ok response) =
      if not (str_eq response.status "success")
      then ok (err (unsuccessful response.status))
      else first_value response.result

  unfoldable pub read_response : Result ℕ Response → Result Panic Answer
  read_response (err e) = ok (err (query_failed e))
  read_response (ok response) =
      if not (response.status_code == 200)
      then ok (err (api_status response.status_code response.body))
      else read_decoded (decode response.body)

  abbrev pub api_url : MetricsCollector Float → String
  api_url mc = mc.prometheus_url <> "/api/v1/query"

  -- The request is sent, if it was made without an error.
  abbrev pub requested : Option ℕ → Request → QueryM Answer
  requested (some e) request s = (ok (err (bad_request e)), s)
  requested none request s = let a = send s request in (read_response a, (request, a) ∷ s)

  unfoldable pub query_prometheus : MetricsCollector Float → Config → String → QueryM Answer
  query_prometheus mc config query =
      requested (new_request (api_url mc))
        (record { url = api_url mc; query = query; authorization = authorization config })

  unfoldable pub test_prometheus_connection : MetricsCollector Float → Config → QueryM Answer
  test_prometheus_connection mc config = query_prometheus mc config "up"

  abbrev pub or_zero : Answer → Float
  or_zero (ok v) = v
  or_zero (err _) = of_uint 0

  -- `if v, err := mc.queryPrometheus(query, config); err == nil { field = v }`, for a field that
  -- is zero before
  unfoldable pub reading : MetricsCollector Float → Config → String → QueryM Float
  reading mc config query = query_prometheus mc config query >>= λ a. pure (or_zero a)
