-- ===== src/Stress/Loader/Lifecycle.antt =====
-- `NewLoader`, `LoadAndAttach`, `SetLoopCount`, `SetEnabled`, `Detach` and `makeMapsReadable` of
-- ebpf-stress/pkg/ebpf/loader.go.
use net_perf_test.Common.{
  ℕ, String, Bool, true, false, Option, none, some, List, [], ◌∷◌, ◌++◌, Result, ok, err, pure,
  ◌>>=◌, ◌>>◌, if◌then◌else◌, str_eq,
}
use net_perf_test.Stress.Loader.Types.{
  bpf_pin_path, Config, Filter, Loader, Call, record_call, mkdir_all, remove_all, chmod,
  remove_memlock, new_collection, close_collection, put, close_link, filter_del, System,
  DetachError, xdp_detach, tc_removal, socket_detach, Error, memlock_failed, spec_failed,
  collection_failed, loop_map_not_found, set_loops_failed, enable_failed, attach_failed,
  loop_map_not_initialized, put_failed, detach_failed, Run, LoaderM, attempt, expect, require,
  get_loader, assign, wrapping,
}
use net_perf_test.Stress.Loader.Attach.{load_spec, attach_program}

-- The maps that the collection pins, in the order of `makeMapsReadable`.
abbrev pub map_names : List String
map_names =
    "config_loop_count" ∷ "config_enabled" ∷ "stats_packets" ∷ "stats_loops" ∷ "stats_bytes"
    ∷ "stats_time_ns" ∷ []

abbrev pub default_program : String
default_program = "bpf/obj/stress.o"

module _ (sys : System) where
  abbrev pub paths_of : List String → List (String × String)
  paths_of [] = []
  paths_of (name ∷ names) = (name, sys.join bpf_pin_path name) ∷ paths_of names

  -- The map of `GetMapPaths`, as its entries.
  unfoldable pub get_map_paths : List (String × String)
  get_map_paths = paths_of map_names

  unfoldable pub chmod_each : List String → LoaderM (Unit {0})
  unfolding ◌>>=◌
  chmod_each [] = pure tt
  chmod_each (name ∷ names) = do
    _ ← attempt sys (chmod (sys.join bpf_pin_path name) 0o644)
    chmod_each names

  unfoldable pub make_maps_readable : LoaderM (Unit {0})
  unfolding ◌>>=◌
  make_maps_readable = do _ ← attempt sys (chmod bpf_pin_path 0o755); chmod_each map_names

  -- The calls of `NewLoader` start an empty trace.
  unfoldable pub new_loader : Config → Run
  new_loader config =
      let c = record config {
        program = if str_eq config.program "" then default_program else config.program;
      } in
      let l : Loader = record {
        config = c;
        collection = none;
        xdp_link = none;
        tc_link = none;
        socket_link = none;
        loop_count_map = none;
        enabled_map = none;
        packets_map = none;
        loops_map = none;
        bytes_map = none;
        time_map = none;
        tc_iface = none;
        tc_ingress = false;
      } in
      let made = mkdir_all bpf_pin_path in
      record { loader = l; trace = if config.pin_maps then (made, sys.answer [] made) ∷ [] else [] }

  unfoldable pub set_loop_count : ℕ → LoaderM (Unit {0})
  unfolding ◌>>=◌
  set_loop_count loops = do
    l ← get_loader
    m ← require loop_map_not_initialized l.loop_count_map
    _ ← expect sys (put m 0 loops) put_failed
    pure tt

  abbrev pub enabled_word : Bool → ℕ
  enabled_word true = 1
  enabled_word false = 0

  -- `l.enabledMap.Put(key, val)`, if there is such a map
  abbrev pub put_enabled : ℕ → Option ℕ → LoaderM (Unit {0})
  put_enabled val none = pure tt
  put_enabled val (some m) = do _ ← expect sys (put m 0 val) put_failed; pure tt

  unfoldable pub set_enabled : Bool → LoaderM (Unit {0})
  unfolding ◌>>=◌
  set_enabled enabled = do l ← get_loader; put_enabled (enabled_word enabled) l.enabled_map

  abbrev failure : (ℕ → DetachError) → Result ℕ ℕ → List DetachError
  failure wrap (ok _) = []
  failure wrap (err e) = wrap e ∷ []

  -- A call of which only the error is kept.
  abbrev close_by : Call → (ℕ → DetachError) → (Loader → Loader) → Run → List DetachError × Run
  close_by c wrap f s =
      let t = record_call c (sys.answer s.trace c) s in
      (failure wrap (sys.answer s.trace c), record t { loader = f s.loader })

  unfoldable pub close_xdp : Run → List DetachError × Run
  close_xdp s = elim s.loader.xdp_link [
    | none ↦ ([], s)
    | some link ↦ close_by (close_link link) xdp_detach (λ l. record l { xdp_link = none }) s
  ]

  abbrev remove_held : Option Filter → Option ℕ → Run → List DetachError × Run
  remove_held (some filter) (some _) s =
      close_by (filter_del filter) tc_removal (λ l. record l { tc_link = none; tc_iface = none }) s
  remove_held _ _ s = ([], s)

  unfoldable pub remove_filter : Run → List DetachError × Run
  remove_filter s = remove_held s.loader.tc_link s.loader.tc_iface s

  unfoldable pub close_socket : Run → List DetachError × Run
  close_socket s = elim s.loader.socket_link [
    | none ↦ ([], s)
    | some link ↦ close_by (close_link link) socket_detach (λ l. record l { socket_link = none }) s
  ]

  -- `Close` of a collection returns no error.
  unfoldable pub close_held : Run → Run
  close_held s = elim s.loader.collection [
    | none ↦ s
    | some c ↦ (close_by (close_collection c) xdp_detach (λ l. record l { collection = none }) s).1
  ]

  unfoldable pub unpin : Run → Run
  unpin s =
      if s.loader.config.pin_maps
      then record_call (remove_all bpf_pin_path) (sys.answer s.trace (remove_all bpf_pin_path)) s
      else s

  abbrev report : List DetachError → Result Error (Unit {0})
  report [] = ok tt
  report (e ∷ es) = err (detach_failed (e ∷ es))

  unfoldable pub detach : LoaderM (Unit {0})
  detach s =
      let s1 = (set_enabled false s).1 in
      let (xdp_errs, s2) = close_xdp s1 in
      let (tc_errs, s3) = remove_filter s2 in
      let (socket_errs, s4) = close_socket s3 in
      (report (xdp_errs ++ tc_errs ++ socket_errs), unpin (close_held s4))

  -- The fields that `LoadAndAttach` reads off the new collection.
  abbrev pub with_collection : ℕ → Loader → Loader
  with_collection c l = record l {
    loop_count_map = sys.map_of c "config_loop_count";
    enabled_map = sys.map_of c "config_enabled";
    packets_map = sys.map_of c "stats_packets";
    loops_map = sys.map_of c "stats_loops";
    bytes_map = sys.map_of c "stats_bytes";
    time_map = sys.map_of c "stats_time_ns";
  }

  -- Setting the loop count and enabling the program, between the load and the attachment.
  unfoldable pub configure : LoaderM (Unit {0})
  unfolding ◌>>=◌
  configure = do
    l ← get_loader
    m ← require loop_map_not_found l.loop_count_map
    _ ← expect sys (put m 0 l.config.loops) (λ e. set_loops_failed (put_failed e))
    wrapping enable_failed (put_enabled 1 l.enabled_map)

  abbrev pub attached_or_detach : Result Error (Unit {0}) → LoaderM (Unit {0})
  attached_or_detach (ok _) s = (ok tt, s)
  attached_or_detach (err e) s = (err (attach_failed e), (detach s).1)

  -- An attachment that fails detaches everything before the error is returned.
  unfoldable pub attach_or_detach : LoaderM (Unit {0})
  attach_or_detach s = let r = attach_program sys s in attached_or_detach r.0 r.1

  -- `NewCollectionWithOptions`, whose result is kept in the loader.
  unfoldable pub open_collection : ℕ → LoaderM ℕ
  unfolding ◌>>=◌
  open_collection spec = do
    l ← get_loader
    let pin_path = if l.config.pin_maps then some bpf_pin_path else none
    c ← expect sys (new_collection spec pin_path) collection_failed
    assign (λ m. record m { collection = some c })
    pure c

  abbrev pub readable_if : Bool → LoaderM (Unit {0})
  readable_if true = make_maps_readable
  readable_if false = pure tt

  unfoldable pub readable_if_pinned : LoaderM (Unit {0})
  readable_if_pinned s = readable_if s.loader.config.pin_maps s

  -- The load of the object file and of its collection.
  unfoldable pub load_collection : LoaderM (Unit {0})
  load_collection = do
    _ ← expect sys remove_memlock memlock_failed
    spec ← wrapping spec_failed (load_spec sys)
    c ← open_collection spec
    readable_if_pinned
    assign (with_collection c)

  unfoldable pub load_and_attach : LoaderM (Unit {0})
  load_and_attach = do load_collection; configure; attach_or_detach
