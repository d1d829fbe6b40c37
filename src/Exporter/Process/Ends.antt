-- ===== src/Exporter/Process/Ends.antt =====
-- How a run of ebpf-exporter/cmd/ebpf-exporter/main.go ends, and what it has then closed.
use net_perf_test.Common.{
  ℕ, ◌+◌, ◌≡◌, refl, ap, ◌∙◌, String, true, false, none, some, List, ok, arith, is_some, All,
  count_by,
}
use net_perf_test.Common.Ints.{is_positive}
use net_perf_test.Common.Floats.{Floats}
use net_perf_test.Exporter.Configuration.{Config}
use net_perf_test.Exporter.Collector.Metrics.{new_metrics, register_metrics}
use net_perf_test.Exporter.Collector.Types.{System, Collector}
use net_perf_test.Exporter.Collector.Maps.{StressMap, LatencyMap, stress_field, close}
use net_perf_test.Exporter.Collector.Collect.{State, run_rounds}
use net_perf_test.Exporter.Collector.Opening.{
  is_opened, is_closed, same_counts, close_count, close-opens,
}
use net_perf_test.Exporter.Collector.Reconnect.{IsKept, run_rounds-IsKept}
use net_perf_test.Exporter.Web.{Response}
use net_perf_test.Exporter.Process.{
  Course, Route, World, going, new_collector, serve, shut_down, ticker_panic, stopped, connected,
  loaded_config, run,
}
use net_perf_test.Exporter.Process.Handles.{
  handles, IsHolding, Distinct, latency_field, connect-IsHolding,
}
use net_perf_test.Exporter.Process.Requests.{IsReady, serve-IsKept}

-- What keeps the fields keeps the handles in them.
IsKept-handles :
    {F : Type 0} (handle : ℕ) (c d : Collector F) → IsKept c d → handles handle d ≡ handles handle c
IsKept-handles handle c d k =
    rw
      (
        k.same_packets, k.same_loops, k.same_bytes, k.same_time, k.same_loop_count,
        k.same_latency_packets, k.same_latency_ns, k.same_latency_histogram,
      )
      refl

module _ (sys : System) (floats : Floats) where
  close_packets : (s : State sys floats) → (close sys s).packets_map ≡ s.packets_map
  unfolding close
  close_packets s = ground arith

  -- Every handle is closed as often as it is held, and nothing is opened again.
  shut_down-closes :
      (handle : ℕ) (course : Course) (s : State sys floats)
      → is_some s.packets_map ≡ true
      → let t = shut_down sys floats course s in
        (count_by (is_opened handle) t.trace ≡ count_by (is_opened handle) s.trace)
        × (count_by (is_closed handle) t.trace
            ≡ count_by (is_closed handle) s.trace + handles handle s)
  unfolding shut_down
  shut_down-closes handle course s h =
      let before = run_rounds-IsKept sys floats course.late s h in
      let u : State sys floats = run_rounds sys floats course.late s in
      let still : is_some (close sys u).packets_map ≡ true =
        ap is_some (close_packets u ∙ before.same_packets) ∙ h in
      let behind = run_rounds-IsKept sys floats course.last (close sys u) still in
      let counts = same_counts handle s.trace u.trace before.same_map_calls in
      let last =
        same_counts handle (close sys u).trace
          (run_rounds sys floats course.last (close sys u)).trace behind.same_map_calls in
      (
        last.0 ∙ close-opens sys handle u ∙ counts.0,
        omega (arith, last.1, counts.1, close_count sys handle u, IsKept-handles handle s u before),
      )

  new_collector-unset :
      (now : ℕ) (c : Config) (interfaces : List String) (k : StressMap)
      → stress_field k (new_collector sys floats now c interfaces) ≡ none
  unfolding new_collector
  new_collector-unset now c interfaces k = ground arith

  new_collector-unset_latency :
      (now : ℕ) (c : Config) (interfaces : List String) (k : LatencyMap)
      → latency_field k (new_collector sys floats now c interfaces) ≡ none
  unfolding new_collector
  new_collector-unset_latency now c interfaces k = ground arith

  new_collector-IsHolding :
      (handle now : ℕ) (c : Config) (interfaces : List String)
      → IsHolding handle (new_collector sys floats now c interfaces)
  unfolding new_collector
  new_collector-IsHolding handle now c interfaces = record { all_held = refl; none_closed = refl }

  module _ {S : Type 0} (world : World S) where
    connected-IsHolding :
        (handle : ℕ) (d : Config) (course : Course)
        → Distinct course.order
        → Distinct course.latency_order
        → IsHolding handle (connected sys floats world d course)
    connected-IsHolding handle d course o l =
        connect-IsHolding sys handle floats d.latency_enabled course.order course.latency_order _ o
          l (new_collector-unset _ d _) (new_collector-unset_latency _ d _)
          (new_collector-IsHolding handle _ d _)

    module _ (c d : Config) (course : Course) (loaded : loaded_config sys floats world c ≡ ok d)
        (t : S)
        (registers : register_metrics world.registry new_metrics world.registered ≡ some t) where
      -- A configuration that loads, and metrics that are registered.
      pub run-going :
          run sys floats world c course
          ≡ going sys floats world d course (connected sys floats world d course)
      unfolding run
      run-going = rw (loaded, registers) refl

      -- A run whose interval is positive, and whose packet map opens at the start, ends in order: all
      -- requests of /ready have got 200, and each handle was opened and closed as often as the
      -- connection left it open, with rounds of the collector at any time, also behind `close`. The
      -- configuration is taken to load, the registry to take the metrics, and no map to be twice in
      -- the order in which Go ranges over a table.
      pub run-closes :
          is_positive d.poll_interval ≡ true
          → Distinct course.order
          → Distinct course.latency_order
          → is_some (connected sys floats world d course).packets_map ≡ true
          → (answers : List (Route × Response)) × (s : State sys floats) × (run sys floats world c
                course
              ≡ stopped answers s)
            × All IsReady answers
            × ((handle : ℕ)
                → let h = handles handle (connected sys floats world d course) in
                  (count_by (is_opened handle) s.trace ≡ h)
                  × (count_by (is_closed handle) s.trace ≡ h))
      run-closes positive o l h =
          let s0 : State sys floats = connected sys floats world d course in
          let (kept, answers) = serve-IsKept sys floats world.formats d course.events s0 h in
          let served = serve sys floats world.formats d course.events s0 in
          let open_still : is_some served.1.packets_map ≡ true = ap is_some kept.same_packets ∙ h in
          (
            served.0,
            shut_down sys floats course served.1,
            run-going ∙ rw positive refl,
            answers,
            λ handle.
                let holding = connected-IsHolding handle d course o l in
                let counts = same_counts handle s0.trace served.1.trace kept.same_map_calls in
                let over = shut_down-closes handle course served.1 open_still in
                (
                  over.0 ∙ counts.0 ∙ holding.all_held,
                  omega (
                    arith,
                    over.1,
                    counts.1,
                    holding.none_closed,
                    IsKept-handles handle s0 served.1 kept,
                  ),
                ),
          )

      -- A run whose interval is not positive panics behind the connection, with every map that it
      -- opened still open.
      pub run-bad_interval :
          is_positive d.poll_interval ≡ false
          → Distinct course.order
          → Distinct course.latency_order
          → let s = connected sys floats world d course in
            (run sys floats world c course ≡ ticker_panic s) × ((handle : ℕ) → IsHolding handle s)
      run-bad_interval bad o l =
          (run-going ∙ rw bad refl, λ handle. connected-IsHolding handle d course o l)
