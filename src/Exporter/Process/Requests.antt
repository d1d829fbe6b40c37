-- ===== src/Exporter/Process/Requests.antt =====
-- The events of ebpf-exporter/cmd/ebpf-exporter/main.go while its packet map is open.
use net_perf_test.Common.{◌≡◌, refl, true, List, [], ◌∷◌, arith, is_some, All}
use net_perf_test.Common.Floats.{Floats}
use net_perf_test.Exporter.Configuration.{Config}
use net_perf_test.Exporter.Collector.Types.{System}
use net_perf_test.Exporter.Collector.Collect.{State}
use net_perf_test.Exporter.Collector.Reconnect.{IsKept, IsKept-refl, IsKept-trans, collect-IsKept}
use net_perf_test.Exporter.Web.{Response, Formats, ready_handler}
use net_perf_test.Exporter.Process.{
  Route, health, ready, config, Event, round, request, respond, serve,
}

-- /ready is answered with 200.
abbrev pub IsReady : Route × Response → Type 0
IsReady (ready, r) = r.status ≡ 200
IsReady _ = Unit

module _ (sys : System) (floats : Floats) (formats : Formats) (c : Config) where
  respond-IsReady :
      (path : Route) (s : State sys floats)
      → is_some s.packets_map ≡ true
      → IsReady (path, respond sys floats formats c path s)
  unfolding ready_handler
  respond-IsReady health s h = tt
  respond-IsReady config s h = tt
  respond-IsReady ready s h = rw h refl

  -- While the packet map is open it stays open, with all the others as they are, and /ready answers
  -- with 200.
  pub serve-IsKept :
      (events : List Event) (s : State sys floats)
      → is_some s.packets_map ≡ true
      → let (answers, t) = serve sys floats formats c events s in IsKept s t × All IsReady answers
  unfolding serve
  serve-IsKept [] s h = (IsKept-refl s, tt)
  serve-IsKept (round r ∷ events) s h =
      let k = collect-IsKept sys floats r s h in
      let (rest, answers) = serve-IsKept events _ (ground (arith, k)) in
      (IsKept-trans k rest, answers)
  serve-IsKept (request path ∷ events) s h =
      let (rest, answers) = serve-IsKept events s h in (rest, (respond-IsReady path s h, answers))
