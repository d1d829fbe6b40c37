-- ===== src/Stress/Loader/Attach.antt =====
-- Finding the object file and attaching the program: `loadSpec`, `attachProgram`, `attachXDP`,
-- `attachTC` and `attachSocket` of ebpf-stress/pkg/ebpf/loader.go.
use net_perf_test.Common.{
  ℕ, String, Bool, true, false, Option, none, some, List, [], ◌∷◌, ok, err, pure, throw, ◌>>=◌,
  ◌>>◌, if◌then◌else◌, str_eq,
}
use net_perf_test.Stress.Loader.Types.{
  hook_xdp, hook_tc_ingress, hook_tc_egress, hook_socket, Parent, min_ingress, min_egress, Filter,
  Loader, stat, load_collection_spec, link_by_name, attach_xdp as attach_xdp_call, program_fd,
  qdisc_del, qdisc_add, filter_add, System, Answer, spec_not_loaded, spec_not_found,
  unsupported_hook, program_not_found, interface_failed, xdp_failed, invalid_fd, qdisc_failed,
  filter_failed, socket_needs_fd, LoaderM, attempt, expect, require, get_loader, assign,
}

-- The paths that `loadSpec` tries behind the configured one.
abbrev pub fallback_paths : List String
fallback_paths =
    "bpf/obj/stress.o" ∷ "./bpf/obj/stress.o" ∷ "../bpf/obj/stress.o"
    ∷ "/usr/share/ebpf-stress/stress.o" ∷ []

module _ (sys : System) where
  -- One round of the loop of `loadSpec`, by the answers of `Stat` and of `LoadCollectionSpec`.
  -- `next` is the rest of the loop, from the error of the last file that did not load.
  abbrev pub loaded : (Option ℕ → LoaderM ℕ) → Answer → LoaderM ℕ
  loaded next (ok spec) = pure spec
  loaded next (err e) = next (some e)

  abbrev pub found : String → (Option ℕ → LoaderM ℕ) → Option ℕ → Answer → LoaderM ℕ
  found path next last_err (err _) = next last_err
  found path next last_err (ok _) = attempt sys (load_collection_spec path) >>= loaded next

  unfoldable pub load_spec_from : List String → Option ℕ → LoaderM ℕ
  unfolding ◌>>=◌
  load_spec_from [] none = throw spec_not_found
  load_spec_from [] (some e) = throw (spec_not_loaded e)
  load_spec_from (path ∷ paths) last_err =
      attempt sys (stat path) >>= found path (load_spec_from paths) last_err

  unfoldable pub load_spec : LoaderM ℕ
  unfolding ◌>>=◌
  load_spec = do l ← get_loader; load_spec_from (l.config.program ∷ fallback_paths) none

  abbrev pub xdp_program : String
  xdp_program = "xdp_stress_prog"

  abbrev pub tc_program : String
  tc_program = "tc_stress_prog"

  -- `l.collection.Programs[name]`
  abbrev pub program_named : String → Loader → Option ℕ
  program_named name l = elim l.collection [ none ↦ none | some c ↦ sys.program_of c name ]

  unfoldable pub attach_xdp : LoaderM (Unit {0})
  unfolding ◌>>=◌
  attach_xdp = do
    l ← get_loader
    prog ← require (program_not_found xdp_program) (program_named xdp_program l)
    iface ← expect sys (link_by_name l.config.interface_name) interface_failed
    xdp_link ← expect sys (attach_xdp_call prog iface) xdp_failed
    assign (λ m. record m { xdp_link = some xdp_link })

  abbrev pub parent_of : Bool → Parent
  parent_of true = min_ingress
  parent_of false = min_egress

  -- A `FilterAdd` that fails takes the queueing discipline away again.
  abbrev pub add_filter : Filter → LoaderM (Unit {0})
  add_filter filter = attempt sys (filter_add filter) >>= λ added. elim added [
    | ok _ ↦ pure tt
    | err e ↦ do _ ← attempt sys (qdisc_del filter.link_index); throw (filter_failed e)
  ]

  unfoldable pub attach_tc : Bool → LoaderM (Unit {0})
  unfolding ◌>>=◌
  attach_tc ingress = do
    l ← get_loader
    prog ← require (program_not_found tc_program) (program_named tc_program l)
    iface ← expect sys (link_by_name l.config.interface_name) interface_failed
    fd ← expect sys (program_fd prog) (λ _. invalid_fd)
    _ ← attempt sys (qdisc_del iface)
    _ ← expect sys (qdisc_add iface) qdisc_failed
    let filter : Filter = record {
      link_index = iface;
      parent = parent_of ingress;
      fd = fd;
      name = tc_program;
    }
    add_filter filter
    assign (λ m. record m { tc_link = some filter; tc_iface = some iface; tc_ingress = ingress })

  unfoldable pub attach_socket : LoaderM (Unit {0})
  attach_socket = throw socket_needs_fd

  unfoldable pub attach_program : LoaderM (Unit {0})
  unfolding ◌>>=◌
  attach_program = do
    l ← get_loader
    let hook = l.config.hook
    if str_eq hook hook_xdp
        then attach_xdp
        else if str_eq hook hook_tc_ingress
        then attach_tc true
        else if str_eq hook hook_tc_egress
        then attach_tc false
        else if str_eq hook hook_socket
        then attach_socket
        else throw (unsupported_hook hook)
