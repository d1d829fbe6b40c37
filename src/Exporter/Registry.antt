-- ===== src/Exporter/Registry.antt =====
-- The registration of metrics with Prometheus: `prometheus.GaugeOpts` and the constructors that the
-- exporter and its latency collector call, and the loop that registers a list. The registry is a
-- parameter.
use mathlib.Core.Bool.{false≢true}
use net_perf_test.Common.{
  ℕ, String, Bool, true, false, List, [], ◌∷◌, ◌++◌, ◌≡◌, refl, ap, ◌∙◌, Result, ok, err, not, ◌&&◌,
  ◌||◌, str_eq, All, Option, some, none,
}

pub record GaugeOpts : Type 0 where
  pub name : String
  pub help : String

-- `prometheus.NewGauge` and `prometheus.NewGaugeVec`, the second with the names of its labels.
pub data Metric : Type 0 where
  gauge : GaugeOpts → Metric
  gauge_vec : GaugeOpts → List String → Metric

abbrev pub name_of : Metric → String
name_of (gauge o) = o.name
name_of (gauge_vec o labels) = o.name

abbrev pub has_name : String → List String → Bool
has_name n [] = false
has_name n (m ∷ ms) = str_eq n m || has_name n ms

module _ {S : Type 0} where
  -- What follows a call of `Register`: the rest of the loop, or the error at once.
  unfoldable pub register_next :
      (S → Result ℕ (Unit {0}) × S) → S → Result ℕ S → Result ℕ (Unit {0}) × S
  register_next rest s (ok t) = rest t
  register_next rest s (err e) = (err e, s)

  -- The loop over the metrics, with the registry that it leaves.
  unfoldable pub register_each :
      (S → Metric → Result ℕ S) → S → List Metric → Result ℕ (Unit {0}) × S
  register_each register s [] = (ok tt, s)
  register_each register s (m ∷ ms) =
      register_next (λ t. register_each register t ms) s (register s m)

-- What a panic leaves of a result: nothing.
abbrev pub or_panic : {S : Type 0} → Result ℕ (Unit {0}) × S → Option S
or_panic (ok u, t) = some t
or_panic (err e, t) = none

-- A registry that keeps what Prometheus documents: `Register` takes a metric whose descriptor is valid
-- and whose name is new, and refuses one whose name is taken; `MustRegister` registers each, and panics at the first error.
pub record Registry (S : Type 0) : Type 0 where
  pub register : S → Metric → Result ℕ S
  pub must_register : S → List Metric → Option S
  pub names : S → List String
  pub valid : Metric → Bool
  pub takes :
      (s : S) (m : Metric)
      → valid m ≡ true
      → has_name (name_of m) (names s) ≡ false
      → (t : S) × (register s m ≡ ok t) × (names t ≡ name_of m ∷ names s)
  pub refuses :
      (s : S) (m : Metric)
      → has_name (name_of m) (names s) ≡ true
      → (e : ℕ) × (register s m ≡ err e)
  pub must_registers :
      (s : S) (ms : List Metric) → must_register s ms ≡ or_panic (register_each register s ms)

-- Whether a registry with these names takes all of the metrics: none is there, and no two agree.
abbrev pub is_free : List String → List Metric → Bool
is_free names [] = true
is_free names (m ∷ ms) = not (has_name (name_of m) names) && is_free (name_of m ∷ names) ms

-- The names once the metrics are in, the newest first.
abbrev pub with_names : List String → List Metric → List String
with_names names [] = names
with_names names (m ∷ ms) = with_names (name_of m ∷ names) ms

abbrev pub all_valid : (Metric → Bool) → List Metric → Bool
all_valid valid [] = true
all_valid valid (m ∷ ms) = valid m && all_valid valid ms

both : (b : Bool) {c : Bool} → (b && c) ≡ true → (b ≡ true) × (c ≡ true)
both true h = (refl, h)
both false h = elim (false≢true h) [ ]

-- None of the metrics has a name that is there.
abbrev pub Untaken : List String → List Metric → Type 0
Untaken names ms = All (λ m. has_name (name_of m) names ≡ false) ms

-- The same as a test.
abbrev pub all_new : List String → List Metric → Bool
all_new names [] = true
all_new names (m ∷ ms) = not (has_name (name_of m) names) && all_new names ms

both_new : (b : Bool) {c : Bool} → (not b && c) ≡ true → (b ≡ false) × (c ≡ true)
both_new false h = (refl, h)
both_new true h = elim (false≢true h) [ ]

pub all_new-Untaken :
    (names : List String) (ms : List Metric) → all_new names ms ≡ true → Untaken names ms
all_new-Untaken names [] h = tt
all_new-Untaken names (m ∷ ms) h =
    let (new, rest) = both_new (has_name (name_of m) names) h in
    (new, all_new-Untaken names ms rest)

has_name-append :
    (n : String) (known names : List String)
    → has_name n names ≡ false
    → has_name n (known ++ names) ≡ has_name n known
has_name-append n [] names h = h
has_name-append n (m ∷ known) names h = ap (λ b. str_eq n m || b) (has_name-append n known names h)

-- Metrics with names apart from each other are free on names that none of them has.
pub is_free-onto :
    (ms : List Metric) (known names : List String)
    → is_free known ms ≡ true
    → Untaken names ms
    → is_free (known ++ names) ms ≡ true
is_free-onto [] known names h u = refl
is_free-onto (m ∷ ms) known names h (p, u) =
    let (new, rest) = both (not (has_name (name_of m) known)) h in
    rw (has_name-append (name_of m) known names p, new)
      (is_free-onto ms (name_of m ∷ known) names rest u)

-- Of two lists, the second is free behind the first.
pub is_free-append :
    (ms ns : List Metric) (names : List String)
    → is_free names (ms ++ ns) ≡ true
    → (is_free names ms ≡ true) × (is_free (with_names names ms) ns ≡ true)
is_free-append [] ns names h = (refl, h)
is_free-append (m ∷ ms) ns names h =
    let (new, rest) = both (not (has_name (name_of m) names)) h in
    let (p, q) = is_free-append ms ns (name_of m ∷ names) rest in (rw new p, q)

pub all_valid-append :
    (valid : Metric → Bool) (ms ns : List Metric)
    → all_valid valid (ms ++ ns) ≡ true
    → (all_valid valid ms ≡ true) × (all_valid valid ns ≡ true)
all_valid-append valid [] ns h = (refl, h)
all_valid-append valid (m ∷ ms) ns h =
    let (one, rest) = both (valid m) h in
    let (p, q) = all_valid-append valid ms ns rest in (rw one p, q)

module _ {S : Type 0} (registry : Registry S) where
  -- A registry that has none of the names takes all of the metrics, if they are valid.
  pub register_each-free :
      (ms : List Metric) (s : S) (names : List String)
      → registry.names s ≡ names
      → is_free names ms ≡ true
      → all_valid registry.valid ms ≡ true
      → (t : S) × (register_each registry.register s ms ≡ (ok tt, t))
        × (registry.names t ≡ with_names names ms)
  unfolding register_each register_next
  register_each-free [] s names p h v = (s, refl, p)
  register_each-free (m ∷ ms) s names p h v =
      let (new, rest) = both_new (has_name (name_of m) names) h in
      let (one, others) = both (registry.valid m) v in
      let (t, q, r) = registry.takes s m one (ap (has_name (name_of m)) p ∙ new) in
      let (u, x, w) = register_each-free ms t _ (r ∙ ap (λ l. name_of m ∷ l) p) rest others in
      (u, ap (register_next (λ t. register_each registry.register t ms) s) q ∙ x, w)

  -- The first metric is refused where its name is there, and the registry stays as it was.
  pub register_each-taken :
      (m : Metric) (ms : List Metric) (s : S)
      → has_name (name_of m) (registry.names s) ≡ true
      → (e : ℕ) × (register_each registry.register s (m ∷ ms) ≡ (err e, s))
  unfolding register_each register_next
  register_each-taken m ms s h =
      let (e, p) = registry.refuses s m h in
      (e, ap (register_next (λ t. register_each registry.register t ms) s) p)
