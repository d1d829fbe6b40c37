-- ===== src/Exporter/Process/Handles.antt =====
-- The handles of pinned maps that the collector of ebpf-exporter/cmd/ebpf-exporter/main.go has.
use net_perf_test.Common.{
  ℕ, ◌+◌, ◌≡◌, ◌≢◌, refl, ◌∙◌, String, Bool, true, false, Option, none, List, [], ◌∷◌, Result, ok,
  err, arith, count_by, All, if◌then◌else◌,
}
use net_perf_test.Common.Floats.{Floats}
use net_perf_test.Exporter.Collector.Types.{
  Call, load_pinned_map, System, Collector, record_call, Gauge,
}
use net_perf_test.Exporter.Collector.Maps.{
  StressMap, LatencyMap, stress_name, latency_name, stress_field, set_stress, set_latency, opened,
  open_each, open_maps, open_latency_maps,
}
use net_perf_test.Exporter.Collector.Collect.{
  State, set, stress_connected, latency_connected, connect,
}
use net_perf_test.Exporter.Collector.Opening.{is_closed, is_opened, holds}

module _ {F : Type 0} where
  -- How many of the fields hold a handle.
  abbrev pub handles : ℕ → Collector F → ℕ
  handles handle c =
      holds handle c.packets_map
      + holds handle c.loops_map
      + holds handle c.bytes_map
      + holds handle c.time_map
      + holds handle c.loop_count_map
      + holds handle c.latency_packets_map
      + holds handle c.latency_ns_map
      + holds handle c.latency_histogram_map

  -- The maps that were opened under a handle are held, and none was closed.
  pub record IsHolding (handle : ℕ) (c : Collector F) : Type 0 where
    pub all_held : count_by (is_opened handle) c.trace ≡ handles handle c
    pub none_closed : count_by (is_closed handle) c.trace ≡ 0

  abbrev pub latency_field : LatencyMap → Collector F → Option ℕ
  latency_field LatencyMap.global_packets c = c.latency_packets_map
  latency_field LatencyMap.global_latency_ns c = c.latency_ns_map
  latency_field LatencyMap.latency_histogram c = c.latency_histogram_map

-- No key is there twice.
abbrev pub Distinct : {K : Type 0} → List K → Type 0
Distinct [] = Unit
Distinct (k ∷ ks) = All (λ j. j ≢ k) ks × Distinct ks

module _ (sys : System) (handle : ℕ) {F : Type 0} where
  -- A table of maps whose fields are apart from each other.
  module _ {K : Type 0} (name : K → String) (assign : K → ℕ → Collector F → Collector F)
      (field : K → Collector F → Option ℕ)
      (kept : (c : Collector F) (k : K) (m : ℕ)
        → field k c ≡ none
        → IsHolding handle c
        → (p : String) → IsHolding handle (assign k m (record_call (load_pinned_map p) (ok m) c)))
      (called : (c : Collector F) (k : K) (a : Call) (r : Result ℕ ℕ)
        → field k (record_call a r c) ≡ field k c)
      (apart : (c : Collector F) (j k : K) (m : ℕ)
        → j ≢ k
        → field j (assign k m c) ≡ field j c) where
    abbrev pub Unset : List K → Collector F → Type 0
    Unset ks c = All (λ k. field k c ≡ none) ks

    Unset-called :
        (ks : List K) (c : Collector F) (a : Call) (r : Result ℕ ℕ)
        → Unset ks c
        → Unset ks (record_call a r c)
    Unset-called [] c a r h = h
    Unset-called (k ∷ ks) c a r (p, h) = (called c k a r ∙ p, Unset-called ks c a r h)

    Unset-assign :
        (ks : List K) (c : Collector F) (k : K) (m : ℕ)
        → All (λ j. j ≢ k) ks
        → Unset ks c
        → Unset ks (assign k m c)
    Unset-assign [] c k m d h = h
    Unset-assign (j ∷ ks) c k m (n, d) (p, h) = (apart c j k m n ∙ p, Unset-assign ks c k m d h)

    opened-IsHolding :
        (path : String) (k : K) (ks : List K) (c : Collector F) (r : Result ℕ ℕ)
        → ((d : Collector F)
            → Unset ks d
            → IsHolding handle d
            → IsHolding handle (open_each sys name assign path ks d).1)
        → All (λ j. j ≢ k) ks
        → field k c ≡ none
        → Unset ks c
        → IsHolding handle c
        → let p = sys.join path (name k) in
          IsHolding handle
            (opened sys name assign
              (open_each sys name assign path ks)
              k
              r
              (record_call (load_pinned_map p) r c)).1
    opened-IsHolding path k ks c (ok m) rest d e u h =
        rest _ (Unset-assign ks _ k m d (Unset-called ks c _ _ u)) (kept c k m e h _)
    opened-IsHolding path k ks c (err _) rest d e u h = record {
      all_held = h.all_held;
      none_closed = h.none_closed;
    }

    -- Opening maps whose fields are not set loses no handle, however it ends.
    pub open_each-IsHolding :
        (path : String) (ks : List K) (c : Collector F)
        → Distinct ks
        → Unset ks c
        → IsHolding handle c
        → IsHolding handle (open_each sys name assign path ks c).1
    unfolding open_each
    open_each-IsHolding path [] c d u h = h
    open_each-IsHolding path (k ∷ ks) c (apart_k, d) (e, u) h =
        opened-IsHolding path k ks c _ (λ t v g. open_each-IsHolding path ks t d v g) apart_k e u h

All-each : {K : Type 0} {P : K → Type 0} (ks : List K) → ((k : K) → P k) → All P ks
All-each [] h = tt
All-each (k ∷ ks) h = (h k, All-each ks h)

module _ (sys : System) (handle : ℕ) (floats : Floats) where
  set_stress-IsHolding :
      (c : State sys floats) (k : StressMap) (m : ℕ)
      → stress_field k c ≡ none
      → IsHolding handle c
      → (p : String) → IsHolding handle (set_stress k m (record_call (load_pinned_map p) (ok m) c))
  set_stress-IsHolding c k m e h p = ground arith

  set_latency-IsHolding :
      (c : State sys floats) (k : LatencyMap) (m : ℕ)
      → latency_field k c ≡ none
      → IsHolding handle c
      → (p : String) → IsHolding handle (set_latency k m (record_call (load_pinned_map p) (ok m) c))
  set_latency-IsHolding c k m e h p = ground arith

  stress_field-record_call :
      (c : State sys floats) (k : StressMap) (a : Call) (r : Result ℕ ℕ)
      → stress_field k (record_call a r c) ≡ stress_field k c
  stress_field-record_call c k a r = ground arith

  latency_field-record_call :
      (c : State sys floats) (k : LatencyMap) (a : Call) (r : Result ℕ ℕ)
      → latency_field k (record_call a r c) ≡ latency_field k c
  latency_field-record_call c k a r = ground arith

  stress_field-set_stress :
      (c : State sys floats) (j k : StressMap) (m : ℕ)
      → j ≢ k
      → stress_field j (set_stress k m c) ≡ stress_field j c
  stress_field-set_stress c j k m h = ground arith

  latency_field-set_latency :
      (c : State sys floats) (j k : LatencyMap) (m : ℕ)
      → j ≢ k
      → latency_field j (set_latency k m c) ≡ latency_field j c
  latency_field-set_latency c j k m h = ground arith

  latency_field-opened :
      (j : LatencyMap) (path : String) (k : StressMap) (ks : List StressMap) (r : Result ℕ ℕ)
      (c : State sys floats)
      → ((d : State sys floats)
          → latency_field j (open_each sys stress_name set_stress path ks d).1 ≡ latency_field j d)
      → latency_field j
          (opened sys stress_name set_stress (open_each sys stress_name set_stress path ks) k r c).1
        ≡ latency_field j c
  latency_field-opened j path k ks (ok m) c rest = rest _ ∙ ground arith
  latency_field-opened j path k ks (err _) c rest = refl

  -- The maps of the one table leave the fields of the other.
  latency_field-open_each :
      (j : LatencyMap) (path : String) (ks : List StressMap) (c : State sys floats)
      → latency_field j (open_each sys stress_name set_stress path ks c).1 ≡ latency_field j c
  unfolding open_each
  latency_field-open_each j path [] c = refl
  latency_field-open_each j path (k ∷ ks) c =
      latency_field-opened j path k ks _ _ (latency_field-open_each j path ks)
      ∙ latency_field-record_call c j _ _

  set-IsHolding :
      (g : Gauge) (v : floats.Float) (c : State sys floats)
      → IsHolding handle c
      → IsHolding handle (set sys floats g v c)
  set-IsHolding g v c h = record { all_held = h.all_held; none_closed = h.none_closed }

  stress_connected-IsHolding :
      (r : Result StressMap (Unit {0})) (c : State sys floats)
      → IsHolding handle c
      → IsHolding handle (stress_connected sys floats r c)
  stress_connected-IsHolding (ok _) c h = set-IsHolding _ _ c h
  stress_connected-IsHolding (err _) c h = set-IsHolding _ _ c h

  latency_connected-IsHolding :
      (r : Result LatencyMap (Unit {0})) (c : State sys floats)
      → IsHolding handle c
      → IsHolding handle (latency_connected sys floats r c)
  latency_connected-IsHolding (ok _) c h = record {
    all_held = h.all_held;
    none_closed = h.none_closed;
  }
  latency_connected-IsHolding (err _) c h = set-IsHolding _ _ c h

  latency_field-stress_connected :
      (k : LatencyMap) (r : Result StressMap (Unit {0})) (c : State sys floats)
      → latency_field k (stress_connected sys floats r c) ≡ latency_field k c
  latency_field-stress_connected k (ok _) c = ground arith
  latency_field-stress_connected k (err _) c = ground arith

  if-IsHolding :
      (b : Bool) (x y : State sys floats)
      → IsHolding handle x
      → IsHolding handle y
      → IsHolding handle (if b then x else y)
  if-IsHolding true x y p q = p
  if-IsHolding false x y p q = q

  -- `run` connects a collector that has nothing open, and loses no handle, however the two openings
  -- end and in whatever orders Go ranges over the two tables.
  pub connect-IsHolding :
      (latency_enabled : Bool) (order : List StressMap) (latency_order : List LatencyMap)
      (c : State sys floats)
      → Distinct order
      → Distinct latency_order
      → ((k : StressMap) → stress_field k c ≡ none)
      → ((k : LatencyMap) → latency_field k c ≡ none)
      → IsHolding handle c
      → IsHolding handle (connect sys floats latency_enabled order latency_order c)
  unfolding connect open_maps open_latency_maps
  connect-IsHolding latency_enabled order latency_order c d e unset unset_latency h =
      let p = open_maps sys order c in
      let c1 = stress_connected sys floats p.0 p.1 in
      let opened1 : IsHolding handle c1 = stress_connected-IsHolding p.0 p.1 (
        open_each-IsHolding sys handle stress_name set_stress stress_field set_stress-IsHolding
          stress_field-record_call stress_field-set_stress _ order c d (All-each order unset) h) in
      let q = open_latency_maps sys latency_order c1 in
      let opened2 : IsHolding handle (open_latency_maps sys latency_order c1).1 =
        open_each-IsHolding sys handle latency_name set_latency latency_field set_latency-IsHolding
          latency_field-record_call latency_field-set_latency _ latency_order c1 e
          (All-each latency_order (λ k.
            latency_field-stress_connected k p.0 p.1
            ∙ latency_field-open_each k _ order c
            ∙ unset_latency k))
          opened1 in
      if-IsHolding latency_enabled _ _ (latency_connected-IsHolding q.0 q.1 opened2)
        (set-IsHolding _ _ c1 opened1)
