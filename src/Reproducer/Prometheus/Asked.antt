-- ===== src/Reproducer/Prometheus/Asked.antt =====
-- Which queries `Collect` of af_packet_reproducer/main.go makes.
use Prim.Native.Nat.{suc-le-suc}
use net_perf_test.Common.{
  ℕ, true, ◌≤◌, ◌≡◌, refl, none, String, List, [], ◌∷◌, map, Result, ok, err, M, ◌>>=◌, All, length,
  Bool-cases, inl, inr, str_eq, ◌==◌,
}
use net_perf_test.Common.Floats.{Floats}
use net_perf_test.Common.Logs.{Logs, pure-Logs, bind-Logs}
use net_perf_test.Reproducer.Prometheus.Types.{
  MetricsCollector, unsuccessful, api_status, Json, text, other, Series, PrometheusResponse, Config,
  Request, Response, Panic, Requests, Web, asked,
}
use net_perf_test.Reproducer.Prometheus.Queries.{
  cpu_queries, memory_queries, network_queries, softirq_queries, sample_queries,
}
use net_perf_test.Reproducer.Prometheus.Request.{
  authorization, Answer, QueryM, api_url, second_value, first_value, read_decoded, read_response,
  query_prometheus, reading,
}
use net_perf_test.Reproducer.Prometheus.Gather.{
  get_cpu_metrics, get_memory_usage, get_network_stats, get_soft_irq_stats,
}
use net_perf_test.Reproducer.Prometheus.Sampling.{gather}

-- A value and its time are two elements.
abbrev pub IsPair : Series → Type 0
IsPair series = 2 ≤ length series.value

-- The queries that a computation makes.
abbrev pub Asks : {A : Type 0} → List String → M Requests Panic A → Type 0
Asks = Logs (map asked)

module _ (floats : Floats) (web : Web floats.Float) where
  open floats use {Float}

  -- In each answer that the server gives with status 200 and that decodes, the values are pairs.
  abbrev pub Paired : Type 0
  Paired =
      (s : Requests) (q : Request) (a : Response) (r : PrometheusResponse)
      → web.send s q ≡ ok a
      → (a.status_code == 200) ≡ true
      → web.decode a.body ≡ ok r
      → All IsPair r.result

  second_value-returns :
      (values : List Json)
      → 2 ≤ length values
      → (a : Answer floats web) × (second_value floats web values ≡ ok a)
  unfolding second_value
  second_value-returns [] h = elim h [ ]
  second_value-returns (_ ∷ []) (suc-le-suc h) = elim h [ ]
  second_value-returns (_ ∷ text s ∷ _) h = (_, refl)
  second_value-returns (_ ∷ other ∷ _) h = (_, refl)

  first_value-returns :
      (result : List Series)
      → All IsPair result
      → (a : Answer floats web) × (first_value floats web result ≡ ok a)
  unfolding first_value
  first_value-returns [] h = (_, refl)
  first_value-returns (series ∷ _) h = second_value-returns series.value h.0

  read_decoded-returns :
      (d : Result ℕ PrometheusResponse)
      → ((r : PrometheusResponse) → d ≡ ok r → All IsPair r.result)
      → (a : Answer floats web) × (read_decoded floats web d ≡ ok a)
  unfolding read_decoded
  read_decoded-returns (err e) h = (_, refl)
  read_decoded-returns (ok r) h = elim (Bool-cases (str_eq r.status "success")) [
    | inl e ↦ let (a, p) = first_value-returns r.result (h r refl) in (a, rw e p)
    | inr e ↦ (err (unsuccessful r.status), rw e refl)
  ]

  module _ (paired : Paired) where
    read_response-returns :
        (s : Requests) (q : Request) (r : Result ℕ Response)
        → web.send s q ≡ r
        → (a : Answer floats web) × (read_response floats web r ≡ ok a)
    unfolding read_response
    read_response-returns s q (err e) sent = (_, refl)
    read_response-returns s q (ok r) sent = elim (Bool-cases (r.status_code == 200)) [
      | inl e ↦
          let (a, p) = read_decoded-returns (web.decode r.body) (λ d. paired s q r d sent e) in
          (a, rw e p)
      | inr e ↦ (err (api_status r.status_code r.body), rw e refl)
    ]

    module _ (mc : MetricsCollector Float) (config : Config)
        (made : web.new_request (api_url floats web mc) ≡ none) where
      query_prometheus-Asks : (q : String) → Asks (q ∷ []) (query_prometheus floats web mc config q)
      unfolding query_prometheus Logs
      query_prometheus-Asks q s =
          let request : Request = record {
            url = api_url floats web mc;
            query = q;
            authorization = authorization floats web config;
          } in
          rw made (read_response-returns s request (web.send s request) refl, refl)

      reading-Asks : (q : String) → Asks (q ∷ []) (reading floats web mc config q)
      unfolding reading
      reading-Asks q =
          bind-Logs _ (q ∷ []) [] (query_prometheus floats web mc config q) _
            (query_prometheus-Asks q) (λ a. pure-Logs _ _ _)

      then-Asks :
          {B : Type 0} (q : String) (qs : List String) (f : Float → QueryM floats web B)
          → ((v : Float) → Asks qs (f v))
          → Asks (q ∷ qs) (reading floats web mc config q >>= f)
      then-Asks q qs f h =
          bind-Logs _ (q ∷ []) qs (reading floats web mc config q) f (reading-Asks q) h

      get_cpu_metrics-Asks :
          Asks (cpu_queries mc.node_filter) (get_cpu_metrics floats web mc config)
      unfolding get_cpu_metrics
      get_cpu_metrics-Asks = then-Asks _ _ _ (λ _. then-Asks _ _ _ (λ _.
          then-Asks _ _ _ (λ _. then-Asks _ _ _ (λ _. then-Asks _ _ _ (λ _. pure-Logs _ _ _)))))

      pub get_memory_usage-Asks :
          Asks (memory_queries mc.node_filter) (get_memory_usage floats web mc config)
      unfolding get_memory_usage
      get_memory_usage-Asks = then-Asks _ _ _ (λ _. then-Asks _ _ _ (λ _. pure-Logs _ _ _))

      pub get_network_stats-Asks :
          Asks (network_queries mc.node_filter) (get_network_stats floats web mc config)
      unfolding get_network_stats
      get_network_stats-Asks = then-Asks _ _ _ (λ _. then-Asks _ _ _ (λ _. then-Asks _ _ _ (λ _.
          then-Asks _ _ _ (λ _. then-Asks _ _ _ (λ _.
            then-Asks _ _ _
              (λ _. then-Asks _ _ _ (λ _. then-Asks _ _ _ (λ _. pure-Logs _ _ _))))))))

      pub get_soft_irq_stats-Asks :
          Asks (softirq_queries mc.node_filter) (get_soft_irq_stats floats web mc config)
      unfolding get_soft_irq_stats
      get_soft_irq_stats-Asks = then-Asks _ _ _ (λ _. then-Asks _ _ _ (λ _. pure-Logs _ _ _))

      -- Where no request is refused by its URL, and the values that the server answers are pairs, the
      -- queries of a sample return, with the server answering as it may; they are the seventeen
      -- queries, each made once, in their order.
      pub gather-Asks : Asks (sample_queries mc.node_filter) (gather floats web mc config)
      unfolding gather
      gather-Asks = bind-Logs _ (cpu_queries mc.node_filter) _ _ _ get_cpu_metrics-Asks (λ _.
          bind-Logs _ (memory_queries mc.node_filter) _ _ _ get_memory_usage-Asks (λ _.
            bind-Logs _ (network_queries mc.node_filter) _ _ _ get_network_stats-Asks (λ _.
              bind-Logs _ (softirq_queries mc.node_filter) _ _ _ get_soft_irq_stats-Asks
                (λ _. pure-Logs _ _ _))))
