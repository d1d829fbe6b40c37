-- ===== src/Exporter/Latency/Types.antt =====
-- The data of ebpf-exporter/pkg/latency/collector.go. The kernel and the file system answer by the
-- parameter `System`; the trace records each call with its answer, the newest first.
use net_perf_test.Common.{
  ℕ, String, Bool, Option, List, [], ◌∷◌, Result, ok, err, M, ◌==◌, str_eq, if◌then◌else◌,
}

abbrev pub default_pin_path : String
default_pin_path = "/sys/fs/bpf/ebpf-exporter"

abbrev pub bpf_object_path : String
bpf_object_path = "bpf/obj/latency.o"

-- `InterfaceStats`: what the BPF program keeps for an interface on one CPU.
pub record InterfaceStats : Type 0 where
  pub packets_total : ℕ
  pub bytes_total : ℕ
  pub latency_ns_total : ℕ
  pub latency_min_ns : ℕ
  pub latency_max_ns : ℕ
  pub xdp_packets : ℕ
  pub tc_ingress_packets : ℕ
  pub tc_egress_packets : ℕ
  pub softirq_time_ns : ℕ

pub data Call : Type 0 where
  mkdir_all : String → Call
  load_pinned_map : String → Call
  load_collection_spec : String → Call
  new_collection : ℕ → String → Call
  chmod : String → ℕ → Call
  interface_by_name : String → Call
  attach_xdp : ℕ → ℕ → Call
  close_link : ℕ → Call
  lookup_values : ℕ → ℕ → Call
  lookup_single : ℕ → ℕ → Call

abbrev pub Answer : Type 0
Answer = Result ℕ ℕ

abbrev pub Event : Type 0
Event = Call × Answer

-- `words` and `stats` are what an answered per-CPU lookup has filled in, by its buffer.
pub record System : Type 0 where
  pub answer : List Event → Call → Answer
  pub map_of : ℕ → String → Option ℕ
  pub program_of : ℕ → String → Option ℕ
  pub words : ℕ → List ℕ
  pub stats : ℕ → List InterfaceStats
  pub join : String → String → String

pub data Gauge : Type 0 where
  packets bytes latency_ns latency_min latency_max latency_avg : String → Gauge
  xdp tc_ingress tc_egress : String → Gauge
  global_packets_total global_latency_ns_total global_avg_ns : Gauge
  histogram : ℕ → Gauge
  collector_up : Gauge
  attached : String → Gauge

-- `Collector`. The two tables of filters are never filled, and are left out; the other two tables
-- are association lists with one entry for each key.
pub record Collector (F : Type 0) : Type 0 where
  pub interfaces : List String
  pub pin_path : String
  pub packet_timestamps : Option ℕ
  pub interface_stats : Option ℕ
  pub latency_histogram : Option ℕ
  pub global_packets : Option ℕ
  pub global_latency_ns : Option ℕ
  pub xdp_links : List (String × ℕ)
  pub ifindex_to_name : List (ℕ × String)
  pub running : Bool
  pub gauges : List (Gauge × F)
  pub trace : List Event

pub data Error : Type 0 where
  pin_path_failed : ℕ → Error
  map_failed : String → ℕ → Error
  spec_failed : ℕ → Error
  collection_failed : ℕ → Error
  interface_not_found : ℕ → Error
  xdp_failed : ℕ → Error

-- `xdpLinks[ifname] = link`
abbrev pub put_link : String → ℕ → List (String × ℕ) → List (String × ℕ)
put_link k v [] = (k, v) ∷ []
put_link k v ((k', v') ∷ rest) =
    let kept = put_link k v rest in if str_eq k k' then (k, v) ∷ rest else (k', v') ∷ kept

-- `ifindexToName[index] = ifname`
abbrev pub put_name : ℕ → String → List (ℕ × String) → List (ℕ × String)
put_name k v [] = (k, v) ∷ []
put_name k v ((k', v') ∷ rest) =
    let kept = put_name k v rest in if k == k' then (k, v) ∷ rest else (k', v') ∷ kept

abbrev pub LatencyM : Type 0 → Type 0 → Type 0
LatencyM F = M (Collector F) Error

abbrev answered : (ℕ → Error) → Answer → Result Error ℕ
answered wrap (ok h) = ok h
answered wrap (err e) = err (wrap e)

module _ {F : Type 0} where
  abbrev pub record_call : Call → Answer → Collector F → Collector F
  record_call a r c = record c { trace = (a, r) ∷ c.trace }

  -- `gauge.Set(v)`
  abbrev pub set : Gauge → F → Collector F → Collector F
  set g v c = record c { gauges = (g, v) ∷ c.gauges }

  unfoldable pub attempt : System → Call → LatencyM F Answer
  attempt sys a c = let r = sys.answer c.trace a in (ok r, record_call a r c)

  unfoldable pub expect : System → Call → (ℕ → Error) → LatencyM F ℕ
  expect sys a wrap c = let r = sys.answer c.trace a in (answered wrap r, record_call a r c)

  unfoldable pub get_collector : LatencyM F (Collector F)
  get_collector c = (ok c, c)

  unfoldable pub change : (Collector F → Collector F) → LatencyM F (Unit {0})
  change f c = (ok tt, f c)
