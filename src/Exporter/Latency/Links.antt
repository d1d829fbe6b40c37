-- ===== src/Exporter/Latency/Links.antt =====
-- What `Start` and `Stop` of ebpf-exporter/pkg/latency/collector.go leave behind.
use net_perf_test.Common.{
  ℕ, ◌+◌, ◌≡◌, refl, ◌∙◌, String, Bool, true, false, List, [], ◌∷◌, Result, ok, err, arith,
  count_by, ◌==◌, if◌then◌else◌, ◌>>=◌,
}
use net_perf_test.Common.Floats.{Floats}
use net_perf_test.Exporter.Latency.Types.{
  attach_xdp, close_link, Event, System, Collector, Error, map_failed, record_call, set, attached,
  attempt, expect, get_collector, change, load_pinned_map, load_collection_spec, chmod,
}
use net_perf_test.Exporter.Latency.Start.{
  State, load_each, open_pinned_maps, load_spec_from, chmod_each, make_maps_readable,
  load_and_attach, open_collection, attach_all, start, stop_each, stop,
}

-- A link was made, and got the handle `l`.
abbrev pub is_attached : ℕ → Event → Bool
is_attached l (attach_xdp _ _, ok k) = k == l
is_attached l _ = false

-- The link with the handle `l` was closed.
abbrev pub is_closed : ℕ → Event → Bool
is_closed l (close_link k, _) = k == l
is_closed l _ = false

abbrev pub is_link_call : Event → Bool
is_link_call (attach_xdp _ _, _) = true
is_link_call (close_link _, _) = true
is_link_call _ = false

-- The calls that make or close a link, the newest first.
abbrev pub link_calls : List Event → List Event
link_calls [] = []
link_calls (event ∷ t) =
    let rest = link_calls t in if is_link_call event then event ∷ rest else rest

abbrev pub one_if : Bool → ℕ
one_if true = 1
one_if false = 0

-- How often a table of links has a handle.
abbrev pub entries_of : ℕ → List (String × ℕ) → ℕ
entries_of l [] = 0
entries_of l ((_, k) ∷ links) = one_if (k == l) + entries_of l links

-- All but the maps and the trace is the same, and no link is made or closed.
pub record IsQuiet {F : Type 0} (c d : Collector F) : Type 0 where
  pub same_interfaces : d.interfaces ≡ c.interfaces
  pub same_running : d.running ≡ c.running
  pub same_links : d.xdp_links ≡ c.xdp_links
  pub same_names : d.ifindex_to_name ≡ c.ifindex_to_name
  pub same_gauges : d.gauges ≡ c.gauges
  pub none_made : link_calls d.trace ≡ link_calls c.trace

module _ {F : Type 0} where
  IsQuiet-refl : (c : Collector F) → IsQuiet c c
  IsQuiet-refl c = ground arith

  IsQuiet-trans : {b c d : Collector F} → IsQuiet b c → IsQuiet c d → IsQuiet b d
  IsQuiet-trans p q = ground arith

module _ (sys : System) (floats : Floats) where
  load_each-IsQuiet :
      (pin_path : String) (names : List String) (c : State sys floats)
      → IsQuiet c (load_each sys floats pin_path names c).1
  unfolding load_each expect
  load_each-IsQuiet pin_path [] c = IsQuiet-refl c
  load_each-IsQuiet pin_path (name ∷ names) c = ground (
    arith,
    load_each-IsQuiet pin_path names
        (expect sys (load_pinned_map (sys.join pin_path name)) (map_failed name) c).1,
  )

  pub open_pinned_maps-IsQuiet :
      (c : State sys floats) → IsQuiet c (open_pinned_maps sys floats c).1
  unfolding open_pinned_maps get_collector change
  open_pinned_maps-IsQuiet c = grind (arith, load_each-IsQuiet)

  pub load_spec_from-IsQuiet :
      (path : String) (paths : List String) (c : State sys floats)
      → IsQuiet c (load_spec_from sys floats path paths c).1
  unfolding load_spec_from expect attempt
  load_spec_from-IsQuiet path [] c = ground arith
  load_spec_from-IsQuiet path (next ∷ paths) c =
      ground
        (arith, load_spec_from-IsQuiet next paths (attempt sys (load_collection_spec path) c).1)

  -- The closing loop closes each link of the table once, and makes none.
  stop_each_counts :
      (l : ℕ) (links : List (String × ℕ)) (c : State sys floats)
      → (count_by (is_closed l) (stop_each sys floats links c).trace
          ≡ count_by (is_closed l) c.trace + entries_of l links)
        × (count_by (is_attached l) (stop_each sys floats links c).trace
            ≡ count_by (is_attached l) c.trace)
  unfolding stop_each
  stop_each_counts l [] c = (omega arith, refl)
  stop_each_counts l ((ifname, xdp_link) ∷ links) c =
      let closed : State sys floats =
        record_call (close_link xdp_link) (sys.answer c.trace (close_link xdp_link)) c in
      ground (arith, stop_each_counts l links (set (attached ifname) (floats.of_uint 0) closed))

  stop_each-links :
      (links : List (String × ℕ)) (c : State sys floats)
      → (stop_each sys floats links c).xdp_links ≡ c.xdp_links
  unfolding stop_each
  stop_each-links [] c = refl
  stop_each-links ((ifname, xdp_link) ∷ links) c = stop_each-links links _ ∙ ground arith

  pub chmod_each-IsQuiet :
      (pin_path : String) (names : List String) (c : State sys floats)
      → IsQuiet c (chmod_each sys floats pin_path names c).1
  unfolding chmod_each attempt
  chmod_each-IsQuiet pin_path [] c = IsQuiet-refl c
  chmod_each-IsQuiet pin_path (name ∷ names) c = ground (
    arith,
    chmod_each-IsQuiet pin_path names (attempt sys (chmod (sys.join pin_path name) 0o644) c).1,
  )

  pub chmod_each_ok :
      (pin_path : String) (names : List String) (c : State sys floats)
      → (chmod_each sys floats pin_path names c).0 ≡ ok tt
  unfolding chmod_each attempt
  chmod_each_ok pin_path [] c = refl
  chmod_each_ok pin_path (name ∷ names) c = chmod_each_ok pin_path names _

  -- How `Start` leaves the collector, by its result.
  abbrev pub IsStarted : State sys floats → Result Error (Unit {0}) → State sys floats → Type 0
  IsStarted c (ok _) d = d.running ≡ true
  IsStarted c (err _) d = IsQuiet c d

  load_and_attach-IsStarted :
      (c : State sys floats)
      → IsStarted c (load_and_attach sys floats c).0 (load_and_attach sys floats c).1
  unfolding load_and_attach open_collection attach_all ◌>>=◌ make_maps_readable expect attempt
      get_collector change
  load_and_attach-IsStarted c = grind (arith, load_spec_from-IsQuiet, chmod_each_ok)

  -- `Start` that succeeds has the collector running; `Start` that fails leaves it as it was but for
  -- the maps: the same gauges and links, not running if it was not, and no link made.
  pub start-IsStarted :
      (c : State sys floats) → IsStarted c (start sys floats c).0 (start sys floats c).1
  unfolding start expect get_collector
  start-IsStarted c = grind (arith, load_and_attach-IsStarted, open_pinned_maps-IsQuiet)

  -- `Stop` closes each handle as often as the table holds it and makes none, and the collector is not
  -- running behind it; the table keeps its entries.
  pub stop-closes :
      (l : ℕ) (c : State sys floats)
      → (count_by (is_closed l) (stop sys floats c).trace
          ≡ count_by (is_closed l) c.trace + entries_of l c.xdp_links)
        × (count_by (is_attached l) (stop sys floats c).trace ≡ count_by (is_attached l) c.trace)
        × ((stop sys floats c).running ≡ false)
        × ((stop sys floats c).xdp_links ≡ c.xdp_links)
  unfolding stop
  stop-closes l c = ground (arith, stop_each_counts l c.xdp_links c, stop_each-links c.xdp_links c)
