-- ===== src/Contract.antt =====
-- What ebpf-stress pins (ebpf-stress/pkg/ebpf/loader.go) and what ebpf-exporter opens
-- (ebpf-exporter/cmd/ebpf-exporter/main.go).
pub mod Counts
mod Tests
use mathlib.Core.List.{Memᴰ}
use mathlib.Core.Path.{subst}
use net_perf_test.Common.{ℕ, ◌≡◌, refl, sym, String, Result, ok, err, List, [], ◌∷◌, All}
use net_perf_test.Stress.Loader.Types.{bpf_pin_path, chmod, Call, Run, attempt}
use net_perf_test.Stress.Loader.Types as Loader
use net_perf_test.Stress.Loader.Lifecycle.{get_map_paths, chmod_each, make_maps_readable}
use net_perf_test.Exporter.Configuration.{default_pin_path}
use net_perf_test.Exporter.Collector.Types.{load_pinned_map, record_call}
use net_perf_test.Exporter.Collector.Types as Exporter
use net_perf_test.Exporter.Collector.Maps.{
  StressMap, stats_packets, stats_loops, stats_bytes, stats_time_ns, config_loop_count, stress_name,
  set_stress, opened, open_each, open_maps,
}

module _ (loader : Loader.System) (exporter : Exporter.System)
    (same_join : exporter.join ≡ loader.join) where
  mem_at :
      (k : StressMap)
      → Memᴰ (stress_name k, loader.join bpf_pin_path (stress_name k)) (get_map_paths loader)
  unfolding get_map_paths
  mem_at config_loop_count = Memᴰ.head refl
  mem_at stats_packets = Memᴰ.tail (Memᴰ.tail (Memᴰ.head refl))
  mem_at stats_loops = Memᴰ.tail (Memᴰ.tail (Memᴰ.tail (Memᴰ.head refl)))
  mem_at stats_bytes = Memᴰ.tail (Memᴰ.tail (Memᴰ.tail (Memᴰ.tail (Memᴰ.head refl))))
  mem_at stats_time_ns = Memᴰ.tail (Memᴰ.tail (Memᴰ.tail (Memᴰ.tail (Memᴰ.tail (Memᴰ.head refl)))))

  readable_at :
      (k : StressMap) (s : Run)
      → (a : Result ℕ ℕ) × Memᴰ
          (chmod (loader.join bpf_pin_path (stress_name k)) 0o644, a)
          (make_maps_readable loader s).1.trace
  unfolding make_maps_readable chmod_each attempt
  readable_at stats_time_ns s = (_, Memᴰ.head refl)
  readable_at stats_bytes s = (_, Memᴰ.tail (Memᴰ.head refl))
  readable_at stats_loops s = (_, Memᴰ.tail (Memᴰ.tail (Memᴰ.head refl)))
  readable_at stats_packets s = (_, Memᴰ.tail (Memᴰ.tail (Memᴰ.tail (Memᴰ.head refl))))
  readable_at config_loop_count s =
      (_, Memᴰ.tail (Memᴰ.tail (Memᴰ.tail (Memᴰ.tail (Memᴰ.tail (Memᴰ.head refl))))))

  -- A map that is asked for is at a path that the loader names, and whose mode the loader asks to be
  -- 0644; of other calls nothing is said.
  abbrev pub IsPinned : Run → Exporter.Event → Type 0
  IsPinned s (load_pinned_map path, _) =
      ((name : String) × Memᴰ (name, path) (get_map_paths loader))
      × ((a : Result ℕ ℕ) × Memᴰ (chmod path 0o644, a) (make_maps_readable loader s).1.trace)
  IsPinned s _ = Unit

  asked-IsPinned :
      (k : StressMap) (s : Run) (r : Result ℕ ℕ)
      → IsPinned s (load_pinned_map (exporter.join default_pin_path (stress_name k)), r)
  asked-IsPinned k s r = rw same_join ((stress_name k, mem_at k), readable_at k s)

  module _ {F : Type 0} (s : Run) where
    abbrev AllPinned : Exporter.Collector F → Type 0
    AllPinned c = All (IsPinned s) c.trace

    set_stress-AllPinned :
        (k : StressMap) (m : ℕ) (c : Exporter.Collector F)
        → AllPinned c
        → AllPinned (set_stress k m c)
    set_stress-AllPinned stats_packets m c h = h
    set_stress-AllPinned stats_loops m c h = h
    set_stress-AllPinned stats_bytes m c h = h
    set_stress-AllPinned stats_time_ns m c h = h
    set_stress-AllPinned config_loop_count m c h = h

    opened-AllPinned :
        (order : List StressMap) (k : StressMap) (r : Result ℕ ℕ) (c : Exporter.Collector F)
        → ((d : Exporter.Collector F)
            → AllPinned d
            → AllPinned (open_each exporter stress_name set_stress default_pin_path order d).1)
        → AllPinned c
        → AllPinned
            (opened exporter stress_name set_stress
              (open_each exporter stress_name set_stress default_pin_path order)
              k
              r
              c).1
    opened-AllPinned order k (ok m) c rest h = rest _ (set_stress-AllPinned k m c h)
    opened-AllPinned order k (err _) c rest h = h

    open_each-AllPinned :
        (order : List StressMap) (c : Exporter.Collector F)
        → AllPinned c
        → AllPinned (open_each exporter stress_name set_stress default_pin_path order c).1
    unfolding open_each
    open_each-AllPinned [] c h = h
    open_each-AllPinned (k ∷ order) c h =
        let path = exporter.join default_pin_path (stress_name k) in
        let r = exporter.answer c.trace (load_pinned_map path) in
        let d : Exporter.Collector F = record_call (load_pinned_map path) r c in
        let asked : AllPinned d = (asked-IsPinned k s r, h) in
        opened-AllPinned order k r d (open_each-AllPinned order) asked

    -- Where both programs join paths alike, `openMaps` of an exporter with its default pin path, in
    -- whatever order it ranges over the table and however it ends, asks only for paths that the loader
    -- names, and whose mode the loader asks to be 0644.
    pub open_maps-AllPinned :
        (order : List StressMap) (c : Exporter.Collector F)
        → c.pin_path ≡ default_pin_path
        → AllPinned c
        → AllPinned (open_maps exporter order c).1
    unfolding open_maps
    open_maps-AllPinned order c p h =
        subst (λ path. AllPinned (open_each exporter stress_name set_stress path order c).1) (sym p)
          (open_each-AllPinned order c h)
