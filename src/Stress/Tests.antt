-- ===== src/Stress/Tests.antt =====
-- The theorems on ebpf-stress at concrete data: a kernel that answers every call in the same way.
use net_perf_test.Common.{
  ℕ, ◌≡◌, ◌↔◌, ◌<>◌, refl, String, true, false, Option, none, some, [], ◌∷◌, ok, err, arith, str_eq,
  ◌==◌, ◌||◌, if◌then◌else◌, ◌>>=◌, map, min,
}
use net_perf_test.Common.Ints.{pos}
use net_perf_test.Common.Sample.{naturals}
use net_perf_test.Stress.Loader.Types.{
  Call, stat, load_collection_spec, new_collection, attach_xdp, lookup_values, lookup_single,
  Answer, System, Run, attempt, expect, get_loader, assign,
}
use net_perf_test.Stress.Loader.Attach.{
  load_spec_from, load_spec, fallback_paths, attach_xdp as attach_xdp_program, attach_program,
}
use net_perf_test.Stress.Loader.Lifecycle.{
  new_loader, open_collection, readable_if_pinned, load_collection, configure, attach_or_detach,
  load_and_attach, chmod_each, make_maps_readable,
}
use net_perf_test.Stress.Loader.Readings.{get_stats}
use net_perf_test.Stress.Loader.Resources.{IsIdle}
use net_perf_test.Stress.Loader.Outcomes.{IsAttached, load_and_attach-IsAttached}
use net_perf_test.Stress.Loader.Search.{
  FileState, missing, loadable, first_loadable, IsFileSystem, load_spec-first_loadable,
}
use net_perf_test.Stress.Loader.Totals.{
  MapState, per_cpu, single, unreadable, IsReading, stats_of, get_stats-eq,
}
use net_perf_test.Stress.Main.{Config, loader_config, validate_config}
use net_perf_test.Stress.Validation.{IsAcceptable, validate_config-eq_ok}
use net_perf_test.Stress.Command.{stats_interval}
use net_perf_test.Stress.Session.{new_loader-IsIdle}

abbrev object : String
object = "../bpf/obj/stress.o"

-- One object file is there. Map 15 cannot be read, and map 16 is not per-CPU.
abbrev respond : Call → Answer
respond (stat p) = if str_eq p object then ok 0 else err 2
respond (load_collection_spec p) = ok 7
respond (new_collection _ _) = ok 3
respond (lookup_values m _) = if m == 15 || m == 16 then err 22 else ok 0
respond (lookup_single m _) = if m == 16 then ok 9 else err 2
respond _ = ok 5

abbrev refuse_xdp : Call → Answer
refuse_xdp (attach_xdp _ _) = err 16
refuse_xdp c = respond c

abbrev all_maps : ℕ → String → Option ℕ
all_maps c name =
    if str_eq name "config_loop_count"
    then some 11
    else if str_eq name "config_enabled"
    then some 12
    else if str_eq name "stats_packets"
    then some 13
    else if str_eq name "stats_loops"
    then some 14
    else if str_eq name "stats_bytes"
    then some 15
    else some 16

abbrev no_maps : ℕ → String → Option ℕ
no_maps c name = none

abbrev kernel_of : (Call → Answer) → (ℕ → String → Option ℕ) → System
kernel_of reply maps = record {
  answer = λ t c. reply c;
  map_of = maps;
  program_of = λ c name. some 2;
  words = λ b. 1 ∷ 2 ∷ [];
  join = λ a b. a <> "/" <> b;
}

abbrev kernel : System
kernel = kernel_of respond all_maps

abbrev config : Config
config = record {
  hook = "xdp";
  interface_name = "eth0";
  loops = 100;
  duration = pos 0;
  verbose = false;
  pin_maps = true;
  stats_interval = pos 1000000000;
}

abbrev fresh : System → Run
unfolding new_loader loader_config
fresh sys = new_loader sys (loader_config config)

-- A loader that holds nothing, also where the kernel refuses something.
fresh-IsIdle : IsIdle (fresh kernel)
unfolding new_loader loader_config
fresh-IsIdle = new_loader-IsIdle kernel (loader_config config)

abbrev refusing : System
refusing = kernel_of refuse_xdp all_maps

refusing-IsIdle : IsIdle (fresh refusing)
unfolding new_loader loader_config
refusing-IsIdle = new_loader-IsIdle refusing (loader_config config)

load_and_attach-IsAttached_example : IsAttached (load_and_attach kernel (fresh kernel)).1
unfolding load_and_attach load_collection load_spec load_spec_from open_collection
    readable_if_pinned make_maps_readable chmod_each configure attach_or_detach attach_program
    attach_xdp_program attempt expect get_loader assign ◌>>=◌ new_loader loader_config
load_and_attach-IsAttached_example =
    load_and_attach-IsAttached kernel (fresh kernel) fresh-IsIdle refl

abbrev mapless : System
mapless = kernel_of respond no_maps

abbrev loaded : Run
loaded = (load_collection kernel (fresh kernel)).1

-- Only `object` is there.
abbrev file : String → FileState
file p = if str_eq p object then loadable 7 else missing

file-IsFileSystem : IsFileSystem kernel file
file-IsFileSystem = record {
  stat_missing = λ t p h. (2, ground arith);
  stat_there = λ t p h. (0, ground arith);
  load_broken = λ t p e h. ground arith;
  load_loadable = λ t p spec h. ground arith;
}

load_spec-first_loadable_example :
    (load_spec kernel (fresh kernel)).0
    ≡ first_loadable (map file ((fresh kernel).loader.config.program ∷ fallback_paths)) none
load_spec-first_loadable_example =
    load_spec-first_loadable kernel file file-IsFileSystem (fresh kernel)

abbrev state : ℕ → MapState
state m = if m == 15 then unreadable else if m == 16 then single 9 else per_cpu (1 ∷ 2 ∷ [])

state-IsReading : IsReading kernel state
state-IsReading = record {
  per_cpu_found = λ t m values h. (0, ground arith, ground arith);
  single_found = λ t m n h. (22, ground arith, λ u. ground arith);
  not_found = λ t m h. (22, 2, ground arith, λ u. ground arith);
}

get_stats-eq_example :
    (get_stats kernel naturals loaded).0 ≡ ok (stats_of kernel state naturals loaded)
unfolding load_collection load_spec load_spec_from open_collection readable_if_pinned
    make_maps_readable chmod_each attempt expect get_loader assign ◌>>=◌ new_loader loader_config
get_stats-eq_example = get_stats-eq kernel state state-IsReading naturals loaded

validate_config-eq_ok_example :
    (validate_config (record config { loops = 9000 }) ≡ ok (record config { loops = 2500 })) ↔ (
      IsAcceptable (record config { loops = 9000 })
      × (record config { loops = 2500 } ≡ record config { loops = min 9000 2500 }))
validate_config-eq_ok_example =
    validate_config-eq_ok (record config { loops = 9000 }) (record config { loops = 2500 })
