-- ===== src/Stress/Loader/Types.antt =====
-- The data of ebpf-stress/pkg/ebpf/loader.go, and the calls that the loader makes of the kernel,
-- of netlink and of the file system. What a call answers is up to the parameter `System`; the
-- trace records each call with its answer, the newest first.
use net_perf_test.Common.{ℕ, String, Bool, Option, none, some, List, ◌∷◌, Result, ok, err, M}

abbrev pub hook_xdp : String
hook_xdp = "xdp"

abbrev pub hook_tc_ingress : String
hook_tc_ingress = "tc-ingress"

abbrev pub hook_tc_egress : String
hook_tc_egress = "tc-egress"

abbrev pub hook_socket : String
hook_socket = "socket"

abbrev pub bpf_pin_path : String
bpf_pin_path = "/sys/fs/bpf/ebpf-stress"

-- A `HookType` is any string. `interface_name` is the field `Interface`.
pub record Config : Type 0 where
  pub hook : String
  pub interface_name : String
  pub loops : ℕ  -- uint32
  pub program : String
  pub pin_maps : Bool

-- `netlink.HANDLE_MIN_INGRESS` and `netlink.HANDLE_MIN_EGRESS`
pub data Parent : Type 0 where
  min_ingress min_egress : Parent

-- The fields of `netlink.BpfFilter` that vary.
pub record Filter : Type 0 where
  pub link_index : ℕ
  pub parent : Parent
  pub fd : ℕ
  pub name : String

-- Maps, links, programs and the collection are handles that the libraries return.
pub record Loader : Type 0 where
  pub config : Config
  pub collection : Option ℕ
  pub xdp_link : Option ℕ
  pub tc_link : Option Filter
  pub socket_link : Option ℕ
  pub loop_count_map : Option ℕ
  pub enabled_map : Option ℕ
  pub packets_map : Option ℕ
  pub loops_map : Option ℕ
  pub bytes_map : Option ℕ
  pub time_map : Option ℕ
  pub tc_iface : Option ℕ
  pub tc_ingress : Bool

pub data Call : Type 0 where
  mkdir_all : String → Call
  remove_all : String → Call
  chmod : String → ℕ → Call
  stat : String → Call
  remove_memlock : Call
  load_collection_spec : String → Call
  new_collection : ℕ → Option String → Call
  close_collection : ℕ → Call
  put : ℕ → ℕ → ℕ → Call
  lookup_values : ℕ → ℕ → Call
  lookup_single : ℕ → ℕ → Call
  link_by_name : String → Call
  attach_xdp : ℕ → ℕ → Call
  close_link : ℕ → Call
  program_fd : ℕ → Call
  qdisc_del : ℕ → Call
  qdisc_add : ℕ → Call
  filter_add : Filter → Call
  filter_del : Filter → Call

-- A call answers with a handle or number, or with an error.
abbrev pub Answer : Type 0
Answer = Result ℕ ℕ

abbrev pub Event : Type 0
Event = Call × Answer

abbrev pub Trace : Type 0
Trace = List Event

-- What the loader does not implement. `map_of` and `program_of` are the entries of a collection's
-- `Maps` and `Programs`; `words` are the values that an answered per-CPU lookup has filled in.
pub record System : Type 0 where
  pub answer : Trace → Call → Answer
  pub map_of : ℕ → String → Option ℕ
  pub program_of : ℕ → String → Option ℕ
  pub words : ℕ → List ℕ
  pub join : String → String → String

pub data DetachError : Type 0 where
  xdp_detach tc_removal socket_detach : ℕ → DetachError

pub data Error : Type 0 where
  memlock_failed : ℕ → Error
  spec_failed : Error → Error
  spec_not_loaded : ℕ → Error
  spec_not_found : Error
  collection_failed : ℕ → Error
  loop_map_not_found : Error
  set_loops_failed : Error → Error
  enable_failed : Error → Error
  attach_failed : Error → Error
  unsupported_hook : String → Error
  program_not_found : String → Error
  interface_failed : ℕ → Error
  xdp_failed : ℕ → Error
  invalid_fd : Error
  qdisc_failed : ℕ → Error
  filter_failed : ℕ → Error
  socket_needs_fd : Error
  loop_map_not_initialized : Error
  put_failed : ℕ → Error
  lookup_failed : ℕ → Error
  no_collection : Error
  detach_failed : List DetachError → Error

-- The loader and the calls made so far.
pub record Run : Type 0 where
  pub loader : Loader
  pub trace : Trace

abbrev pub LoaderM : Type 0 → Type 0
LoaderM = M Run Error

abbrev pub record_call : Call → Answer → Run → Run
record_call c a s = record s { trace = (c, a) ∷ s.trace }

-- One call: its answer is recorded, and handed back as a value.
unfoldable pub attempt : System → Call → LoaderM Answer
attempt sys c s = let a = sys.answer s.trace c in (ok a, record_call c a s)

abbrev answered : (ℕ → Error) → Answer → Result Error ℕ
answered wrap (ok h) = ok h
answered wrap (err e) = err (wrap e)

-- `x, err := call; if err != nil { return wrap(err) }`
unfoldable pub expect : System → Call → (ℕ → Error) → LoaderM ℕ
expect sys c wrap s = let a = sys.answer s.trace c in (answered wrap a, record_call c a s)

-- A pointer that must not be nil.
abbrev pub require : {A : Type 0} → Error → Option A → LoaderM A
require e none s = (err e, s)
require e (some a) s = (ok a, s)

unfoldable pub get_loader : LoaderM Loader
get_loader s = (ok s.loader, s)

-- An assignment to fields of the loader.
unfoldable pub assign : (Loader → Loader) → LoaderM (Unit {0})
assign f s = (ok tt, record s { loader = f s.loader })

-- `if err := m(); err != nil { return wrap(err) }`
abbrev rewrap : {A : Type 0} → (Error → Error) → Result Error A → Result Error A
rewrap wrap (ok a) = ok a
rewrap wrap (err e) = err (wrap e)

abbrev pub wrapping : {A : Type 0} → (Error → Error) → LoaderM A → LoaderM A
wrapping wrap m s = let r = m s in (rewrap wrap r.0, r.1)

-- `_ = m()`
abbrev pub ignoring : {A : Type 0} → LoaderM A → LoaderM (Unit {0})
ignoring m s = (ok tt, (m s).1)
