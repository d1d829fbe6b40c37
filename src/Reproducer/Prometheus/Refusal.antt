-- ===== src/Reproducer/Prometheus/Refusal.antt =====
-- What af_packet_reproducer/main.go samples of the CPU, from a server that refuses bad queries.
use mathlib.Core.List.{Memᴰ}
use net_perf_test.Common.{
  ℕ, ◌≡◌, refl, ap, ◌∙◌, false, none, some, Option-cases, inl, inr, String, Result, ok, err,
  bind_value, ◌>>=◌, str_eq, ◌==◌, if◌then◌else◌,
}
use net_perf_test.Common.Floats.{Floats}
use net_perf_test.Reproducer.Prometheus.Types.{
  MetricsCollector, CpuMetrics, Config, Request, Response, QueryError, bad_request, query_failed,
  api_status, Requests, Panic, Web,
}
use net_perf_test.Reproducer.Prometheus.Queries.{usage_query, mode_query, cpu_queries}
use net_perf_test.Reproducer.Prometheus.Request.{
  QueryM, authorization, read_response, api_url, query_prometheus, reading,
}
use net_perf_test.Reproducer.Prometheus.Gather.{get_cpu_metrics}
use net_perf_test.Reproducer.Prometheus.Braces.{braces, has_brace, usage-braces, mode-braces}

module _ (floats : Floats) (web : Web floats.Float) where
  open floats use {Float, of_uint}

  -- The server, where it answers at all, answers those of the five queries of the CPU whose braces are
  -- not in order with a status that is not 200.
  abbrev pub Refuses : String → Type 0
  Refuses filter =
      (s : Requests) (r : Request) (a : Response)
      → Memᴰ r.query (cpu_queries filter)
      → braces r.query (some false) ≡ none
      → web.send s r ≡ ok a
      → (a.status_code == 200) ≡ false

  abbrev pub no_cpu_metrics : CpuMetrics Float
  no_cpu_metrics = record {
    usage = of_uint 0;
    soft_irq = of_uint 0;
    user = of_uint 0;
    system = of_uint 0;
    idle = of_uint 0;
  }

  module _ (mc : MetricsCollector Float) (refuses : Refuses mc.node_filter) (config : Config) where
    sent-refused :
        (s : Requests) (r : Request) (answer : Result ℕ Response)
        → web.send s r ≡ answer
        → Memᴰ r.query (cpu_queries mc.node_filter)
        → braces r.query (some false) ≡ none
        → (e : QueryError) × (read_response floats web answer ≡ ok (err e))
    unfolding read_response
    sent-refused s r (err n) sent p h = (query_failed n, refl)
    sent-refused s r (ok a) sent p h =
        (api_status a.status_code a.body, rw (refuses s r a p h sent) refl)

    query_prometheus-refused :
        (q : String) (s : Requests)
        → Memᴰ q (cpu_queries mc.node_filter)
        → braces q (some false) ≡ none
        → (e : QueryError) × ((query_prometheus floats web mc config q s).0 ≡ ok (err e))
    unfolding query_prometheus
    query_prometheus-refused q s p h =
        elim (Option-cases (web.new_request (api_url floats web mc))) [
          | inl e ↦
              let request : Request = record {
                url = api_url floats web mc;
                query = q;
                authorization = authorization floats web config;
              } in
              let (n, refused) = sent-refused s request (web.send s request) refl p h in
              (n, rw e refused)
          | inr (n, e) ↦ (bad_request n, rw e refl)
        ]

    reading-refused :
        (q : String) (s : Requests)
        → Memᴰ q (cpu_queries mc.node_filter)
        → braces q (some false) ≡ none
        → (reading floats web mc config q s).0 ≡ ok (of_uint 0)
    unfolding reading
    reading-refused q s p h =
        let (e, r) = query_prometheus-refused q s p h in
        bind_value (query_prometheus floats web mc config q) _ s r refl

    zero_next :
        {B : Type 0} (q : String) (f : Float → QueryM floats web B) (s : Requests)
        {r : Result Panic B}
        → Memᴰ q (cpu_queries mc.node_filter)
        → braces q (some false) ≡ none
        → (f (of_uint 0) (reading floats web mc config q s).1).0 ≡ r
        → ((reading floats web mc config q >>= f) s).0 ≡ r
    zero_next q f s p h = bind_value (reading floats web mc config q) f s (reading-refused q s p h)

    -- With a server that refuses those of the queries of the CPU whose braces are not in order, and a
    -- node filter that is not empty and has no brace, getCPUMetrics returns zero for all five
    -- percentages.
    pub get_cpu_metrics-refused :
        (s : Requests)
        → has_brace mc.node_filter ≡ false
        → str_eq mc.node_filter "" ≡ false
        → (get_cpu_metrics floats web mc config s).0 ≡ ok no_cpu_metrics
    unfolding get_cpu_metrics
    get_cpu_metrics-refused s free filtered =
        let bad = ap (λ b. if b then some false else none) filtered in
        let mode : (m : String)
            → has_brace m ≡ false
            → braces (mode_query m mc.node_filter) (some false) ≡ none =
          λ m h. mode-braces mc.node_filter free m h ∙ bad in
        zero_next (usage_query mc.node_filter) _ s (Memᴰ.head refl)
          (usage-braces mc.node_filter free ∙ bad)
          (zero_next (mode_query "softirq" mc.node_filter) _ _ (Memᴰ.tail (Memᴰ.head refl))
            (mode "softirq" refl)
            (zero_next (mode_query "user" mc.node_filter) _ _
              (Memᴰ.tail (Memᴰ.tail (Memᴰ.head refl))) (mode "user" refl)
              (zero_next (mode_query "system" mc.node_filter) _ _
                (Memᴰ.tail (Memᴰ.tail (Memᴰ.tail (Memᴰ.head refl)))) (mode "system" refl)
                (zero_next (mode_query "idle" mc.node_filter) _ _
                  (Memᴰ.tail (Memᴰ.tail (Memᴰ.tail (Memᴰ.tail (Memᴰ.head refl)))))
                  (mode "idle" refl) refl))))
