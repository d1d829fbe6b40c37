-- ===== src/Exporter/Collector/Opening.antt =====
-- `openMaps` and `close` of ebpf-exporter/cmd/ebpf-exporter/main.go: which fields they leave set.
use mathlib.Core.List.{Memᴰ}
use net_perf_test.Common.{
  ℕ, ◌≡◌, ◌+◌, String, Bool, true, false, List, [], ◌∷◌, Result, ok, err, arith, is_some, count_by,
  Option, none, some, refl, sym, ap, ◌∙◌, ◌==◌, Bool-cases, inl, inr, if◌then◌else◌,
}
use net_perf_test.Exporter.Collector.Types.{
  Trace, lookup_values, lookup_single, lookup_word, Call, Event, close_map, load_pinned_map, System,
  Collector, record_call,
}
use net_perf_test.Exporter.Collector.Maps.{
  StressMap, stress_name, stress_field, set_stress, reply, opened, open_each, open_maps, close,
  close_if,
}

-- The map with the handle `m` was closed.
abbrev pub is_closed : ℕ → Event → Bool
is_closed m (close_map k, _) = k == m
is_closed m _ = false

-- A pinned map was opened, and got the handle `m`.
abbrev pub is_opened : ℕ → Event → Bool
is_opened m (load_pinned_map _, ok k) = k == m
is_opened m _ = false

-- The calls that open or close a map.
abbrev is_map_call : Event → Bool
is_map_call (load_pinned_map _, _) = true
is_map_call (close_map _, _) = true
is_map_call _ = false

abbrev pub map_calls : Trace → Trace
map_calls [] = []
map_calls (event ∷ t) = let rest = map_calls t in if is_map_call event then event ∷ rest else rest

-- Whether a field holds the handle `m`.
abbrev pub holds : ℕ → Option ℕ → ℕ
holds m none = 0
holds m (some k) = if k == m then 1 else 0

-- The other calls open and close nothing.
count-map_calls :
    (p : Event → Bool) (t : Trace)
    → ((event : Event) → is_map_call event ≡ false → p event ≡ false)
    → count_by p (map_calls t) ≡ count_by p t
count-map_calls p [] other = refl
count-map_calls p (event ∷ t) other =
    let ih = count-map_calls p t other in
    elim (Bool-cases (is_map_call event)) [
      | inl e ↦ rw (e, ih) refl
      | inr e ↦ rw (e, other event e) ih
    ]

opened_otherwise : (m : ℕ) (event : Event) → is_map_call event ≡ false → is_opened m event ≡ false
opened_otherwise m (load_pinned_map _, _) h = cc
opened_otherwise m (close_map _, _) h = refl
opened_otherwise m (lookup_values _ _, _) h = refl
opened_otherwise m (lookup_single _ _, _) h = refl
opened_otherwise m (lookup_word _ _, _) h = refl

closed_otherwise : (m : ℕ) (event : Event) → is_map_call event ≡ false → is_closed m event ≡ false
closed_otherwise m (load_pinned_map _, _) h = refl
closed_otherwise m (close_map _, _) h = cc
closed_otherwise m (lookup_values _ _, _) h = refl
closed_otherwise m (lookup_single _ _, _) h = refl
closed_otherwise m (lookup_word _ _, _) h = refl

-- Traces with the same of these calls open and close the same.
pub same_counts :
    (m : ℕ) (t u : Trace)
    → map_calls u ≡ map_calls t
    → (count_by (is_opened m) u ≡ count_by (is_opened m) t)
      × (count_by (is_closed m) u ≡ count_by (is_closed m) t)
same_counts m t u h = (
  sym (count-map_calls (is_opened m) u (opened_otherwise m))
      ∙ ap (count_by (is_opened m)) h
      ∙ count-map_calls (is_opened m) t (opened_otherwise m),
  sym (count-map_calls (is_closed m) u (closed_otherwise m))
      ∙ ap (count_by (is_closed m)) h
      ∙ count-map_calls (is_closed m) t (closed_otherwise m),
)

module _ (sys : System) {F : Type 0} where
  abbrev pub Opened : Collector F → StressMap → Type 0
  Opened c k = is_some (stress_field k c) ≡ true

  set_stress-Opened :
      (k j : StressMap) (m : ℕ) (c : Collector F) → Opened c j → Opened (set_stress k m c) j
  set_stress-Opened k j m c h = ground arith

  set_stress_self : (k : StressMap) (m : ℕ) (c : Collector F) → Opened (set_stress k m c) k
  set_stress_self k m c = ground arith

  record_call-Opened :
      (a : Call) (r : Result ℕ ℕ) (k : StressMap) (c : Collector F)
      → Opened c k
      → Opened (record_call a r c) k
  record_call-Opened a r k c h = ground arith

  module _ (path : String) where
    abbrev open_all : List StressMap → Collector F → Result StressMap (Unit {0}) × Collector F
    open_all = open_each sys stress_name set_stress path

    opened-Opened :
        (order : List StressMap) (k j : StressMap)
        → ((c : Collector F) → Opened c k → Opened (open_all order c).1 k)
        → (r : Result ℕ ℕ) (c : Collector F) → Opened c k
        → Opened (opened sys stress_name set_stress (open_all order) j r c).1 k
    opened-Opened order k j rest (ok m) c h = rest _ (set_stress-Opened j k m c h)
    opened-Opened order k j rest (err _) c h = h

    -- A field that is set stays set, whatever the order and however it ends.
    open_each-Opened :
        (order : List StressMap) (k : StressMap) (c : Collector F)
        → Opened c k
        → Opened (open_all order c).1 k
    unfolding open_each
    open_each-Opened [] k c h = h
    open_each-Opened (j ∷ order) k c h =
        opened-Opened order k j (open_each-Opened order k) _ _ (record_call-Opened _ _ k c h)

    opened_ok :
        (order : List StressMap) (k j : StressMap) (r : Result ℕ ℕ) (c : Collector F)
        → ((d : Collector F)
            → (open_all order d).0 ≡ ok tt
            → Memᴰ k order
            → Opened (open_all order d).1 k)
        → (opened sys stress_name set_stress (open_all order) j r c).0 ≡ ok tt
        → Memᴰ k (j ∷ order)
        → Opened (opened sys stress_name set_stress (open_all order) j r c).1 k
    opened_ok order k j (ok m) c rest h (Memᴰ.head e) =
        open_each-Opened order k _ (rw e (set_stress_self j m c))
    opened_ok order k j (ok m) c rest h (Memᴰ.tail p) = rest _ h p
    opened_ok order k j (err _) c rest h p = cc

    open_each_ok :
        (order : List StressMap) (k : StressMap) (c : Collector F)
        → (open_all order c).0 ≡ ok tt
        → Memᴰ k order
        → Opened (open_all order c).1 k
    unfolding open_each
    open_each_ok [] k c h p = elim p [ ]
    open_each_ok (j ∷ order) k c h p = opened_ok order k j _ _ (open_each_ok order k) h p

  -- In whatever order Go ranges over the table: if `openMaps` succeeds, every map of the order is
  -- open behind it.
  pub open_maps_ok :
      (order : List StressMap) (k : StressMap) (c : Collector F)
      → (open_maps sys order c).0 ≡ ok tt
      → Memᴰ k order
      → Opened (open_maps sys order c).1 k
  unfolding open_maps
  open_maps_ok order k c h p = open_each_ok c.pin_path order k c h p

  -- The first map of the order is open behind `openMaps` if it loads, however the rest ends.
  pub open_maps_first :
      (k : StressMap) (order : List StressMap) (c : Collector F) (m : ℕ)
      → reply sys (load_pinned_map (sys.join c.pin_path (stress_name k))) c ≡ ok m
      → Opened (open_maps sys (k ∷ order) c).1 k
  unfolding open_maps open_each
  open_maps_first k order c m h =
      rw h (open_each-Opened c.pin_path order k _ (set_stress_self k m _))

  close_if_count :
      (m : ℕ) (o : Option ℕ) (c : Collector F)
      → count_by (is_closed m) (close_if sys o c).trace ≡ count_by (is_closed m) c.trace + holds m o
  close_if_count m none c = omega arith
  close_if_count m (some k) c = ground arith

  -- `close` closes every map that is open, each of the eight once: a handle as often as the fields
  -- hold it.
  pub close_count :
      (m : ℕ) (c : Collector F)
      → count_by (is_closed m) (close sys c).trace
        ≡ count_by (is_closed m) c.trace
          + holds m c.packets_map
          + holds m c.loops_map
          + holds m c.bytes_map
          + holds m c.time_map
          + holds m c.loop_count_map
          + holds m c.latency_packets_map
          + holds m c.latency_ns_map
          + holds m c.latency_histogram_map
  unfolding close
  close_count m c =
      let c1 : Collector F = close_if sys c.packets_map c in
      let c2 : Collector F = close_if sys c.loops_map c1 in
      let c3 : Collector F = close_if sys c.bytes_map c2 in
      let c4 : Collector F = close_if sys c.time_map c3 in
      let c5 : Collector F = close_if sys c.loop_count_map c4 in
      let c6 : Collector F = close_if sys c.latency_packets_map c5 in
      let c7 : Collector F = close_if sys c.latency_ns_map c6 in
      omega (
        arith,
        close_if_count m c.packets_map c,
        close_if_count m c.loops_map c1,
        close_if_count m c.bytes_map c2,
        close_if_count m c.time_map c3,
        close_if_count m c.loop_count_map c4,
        close_if_count m c.latency_packets_map c5,
        close_if_count m c.latency_ns_map c6,
        close_if_count m c.latency_histogram_map c7,
      )

  close_if-opens :
      (m : ℕ) (o : Option ℕ) (c : Collector F)
      → count_by (is_opened m) (close_if sys o c).trace ≡ count_by (is_opened m) c.trace
  close_if-opens m none c = refl
  close_if-opens m (some k) c = refl

  -- It opens nothing.
  pub close-opens :
      (m : ℕ) (c : Collector F)
      → count_by (is_opened m) (close sys c).trace ≡ count_by (is_opened m) c.trace
  unfolding close
  close-opens m c =
      close_if-opens m c.latency_histogram_map _
      ∙ close_if-opens m c.latency_ns_map _
      ∙ close_if-opens m c.latency_packets_map _
      ∙ close_if-opens m c.loop_count_map _
      ∙ close_if-opens m c.time_map _
      ∙ close_if-opens m c.bytes_map _
      ∙ close_if-opens m c.loops_map _
      ∙ close_if-opens m c.packets_map c
