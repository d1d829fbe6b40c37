-- ===== src/Exporter/Latency/Start.antt =====
-- `NewCollector`, `Start`, `openPinnedMaps`, `attachToInterface`, `makeMapsReadable` and `Stop` of
-- ebpf-exporter/pkg/latency/collector.go.
use net_perf_test.Common.{
  ℕ, String, true, false, Option, none, some, List, [], ◌∷◌, Result, ok, err, pure, ◌>>=◌, ◌>>◌,
  str_eq, if◌then◌else◌,
}
use net_perf_test.Common.Floats.{Floats}
use net_perf_test.Exporter.Latency.Types.{
  default_pin_path, bpf_object_path, mkdir_all, load_pinned_map, load_collection_spec,
  new_collection, chmod, interface_by_name, attach_xdp, close_link, System, Answer, Collector,
  Error, pin_path_failed, map_failed, spec_failed, collection_failed, interface_not_found,
  xdp_failed, put_link, put_name, LatencyM, record_call, set, collector_up, attached, attempt,
  expect, get_collector, change,
}

abbrev pub map_names : List String
map_names =
    "packet_timestamps" ∷ "interface_latency_stats" ∷ "latency_histogram" ∷ "global_packets"
    ∷ "global_latency_ns" ∷ []

-- The paths behind `bpf_object_path`.
abbrev pub alt_paths : List String
alt_paths = "bpf/obj/latency.o" ∷ "../bpf/obj/latency.o" ∷ "/usr/share/ebpf-exporter/latency.o" ∷ []

-- `maps[name]`
abbrev pub entry : String → List (String × ℕ) → Option ℕ
entry name [] = none
entry name ((k, m) ∷ rest) = let later = entry name rest in if str_eq name k then some m else later

-- The five fields, by the entries of a table of maps.
abbrev pub with_maps : {F : Type 0} → (String → Option ℕ) → Collector F → Collector F
with_maps maps c = record c {
  packet_timestamps = maps "packet_timestamps";
  interface_stats = maps "interface_latency_stats";
  latency_histogram = maps "latency_histogram";
  global_packets = maps "global_packets";
  global_latency_ns = maps "global_latency_ns";
}

unfoldable pub new_collector : {F : Type 0} → List String → String → Collector F
new_collector interfaces pin_path = record {
  interfaces = interfaces;
  pin_path = if str_eq pin_path "" then default_pin_path else pin_path;
  packet_timestamps = none;
  interface_stats = none;
  latency_histogram = none;
  global_packets = none;
  global_latency_ns = none;
  xdp_links = [];
  ifindex_to_name = [];
  running = false;
  gauges = [];
  trace = [];
}

module _ (sys : System) (floats : Floats) where
  open floats use {Float, of_uint}

  abbrev pub State : Type 0
  State = Collector Float

  abbrev pub L : Type 0 → Type 0
  L = LatencyM Float

  unfoldable pub load_each : String → List String → L (List (String × ℕ))
  unfolding ◌>>=◌
  load_each pin_path [] = pure []
  load_each pin_path (name ∷ names) = do
    m ← expect sys (load_pinned_map (sys.join pin_path name)) (map_failed name)
    rest ← load_each pin_path names
    pure ((name, m) ∷ rest)

  -- The fields are set only if all five maps load.
  unfoldable pub open_pinned_maps : L (Unit {0})
  unfolding ◌>>=◌
  open_pinned_maps = do
    c ← get_collector
    maps ← load_each c.pin_path map_names
    change (with_maps (λ name. entry name maps))

  abbrev pub spec_or : L ℕ → Answer → L ℕ
  spec_or next (ok spec) = pure spec
  spec_or next (err _) = next

  -- The paths in turn; the error is the one of the last.
  unfoldable pub load_spec_from : String → List String → L ℕ
  unfolding ◌>>=◌
  load_spec_from path [] = expect sys (load_collection_spec path) spec_failed
  load_spec_from path (next ∷ paths) =
      attempt sys (load_collection_spec path) >>= spec_or (load_spec_from next paths)

  unfoldable pub chmod_each : String → List String → L (Unit {0})
  unfolding ◌>>=◌
  chmod_each pin_path [] = pure tt
  chmod_each pin_path (name ∷ names) = do
    _ ← attempt sys (chmod (sys.join pin_path name) 0o644)
    chmod_each pin_path names

  unfoldable pub make_maps_readable : L (Unit {0})
  unfolding ◌>>=◌
  make_maps_readable = do
    c ← get_collector
    _ ← attempt sys (chmod c.pin_path 0o755)
    chmod_each c.pin_path map_names

  -- The XDP program on the interface with this index, if the collection has it.
  abbrev pub attach_if : String → ℕ → Option ℕ → L (Unit {0})
  attach_if ifname index none = pure tt
  attach_if ifname index (some prog) = do
    xdp_link ← expect sys (attach_xdp prog index) xdp_failed
    change (λ c. record c { xdp_links = put_link ifname xdp_link c.xdp_links })

  unfoldable pub attach_to_interface : ℕ → String → L (Unit {0})
  unfolding ◌>>=◌
  attach_to_interface coll ifname = do
    index ← expect sys (interface_by_name ifname) interface_not_found
    change (λ c. record c { ifindex_to_name = put_name index ifname c.ifindex_to_name })
    attach_if ifname index (sys.program_of coll "xdp_latency_ingress")

  abbrev pub mark_attached : String → Result Error (Unit {0}) → State → State
  mark_attached ifname (ok _) c = set (attached ifname) (of_uint 1) c
  mark_attached ifname (err _) c = set (attached ifname) (of_uint 0) c

  -- An interface that cannot be attached to is passed over.
  unfoldable pub attach_each : ℕ → List String → State → State
  attach_each coll [] c = c
  attach_each coll (ifname ∷ ifnames) c =
      let r = attach_to_interface coll ifname c in
      attach_each coll ifnames (mark_attached ifname r.0 r.1)

  abbrev pub run_with : State → State
  run_with c = set collector_up (of_uint 1) (record c { running = true })

  unfoldable pub open_collection : ℕ → L ℕ
  unfolding ◌>>=◌
  open_collection spec = do
    c ← get_collector
    expect sys (new_collection spec c.pin_path) collection_failed

  -- The maps of the collection, and the loop over the interfaces.
  unfoldable pub attach_all : ℕ → L (Unit {0})
  unfolding ◌>>=◌
  attach_all coll = do
    change (with_maps (sys.map_of coll))
    make_maps_readable
    d ← get_collector
    change (attach_each coll d.interfaces)
    change run_with

  -- The part of `Start` behind the pinned maps.
  unfoldable pub load_and_attach : L (Unit {0})
  load_and_attach = do
    spec ← load_spec_from bpf_object_path alt_paths
    coll ← open_collection spec
    attach_all coll

  abbrev pub pinned_or_load : Result Error (Unit {0}) → L (Unit {0})
  pinned_or_load (ok _) c = (ok tt, run_with c)
  pinned_or_load (err _) c = load_and_attach c

  unfoldable pub start : L (Unit {0})
  unfolding ◌>>=◌
  start = do
    c ← get_collector
    _ ← expect sys (mkdir_all c.pin_path) pin_path_failed
    λ d. let r = open_pinned_maps d in pinned_or_load r.0 r.1

  -- The loop of `Stop` over the links, in the order in which Go happens to range over them.
  unfoldable pub stop_each : List (String × ℕ) → State → State
  stop_each [] c = c
  stop_each ((ifname, xdp_link) ∷ rest) c =
      let closed = record_call (close_link xdp_link) (sys.answer c.trace (close_link xdp_link)) c in
      stop_each rest (set (attached ifname) (of_uint 0) closed)

  -- The table of links keeps its entries.
  unfoldable pub stop : State → State
  stop c =
      let d = stop_each c.xdp_links c in set collector_up (of_uint 0) (record d { running = false })
