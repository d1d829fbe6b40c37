-- ===== src/Exporter/Sample.antt =====
-- A registry of metrics for the tests.
use net_perf_test.Common.{ℕ, true, String, List, ◌∷◌, Result, ok, err, refl, ap, if◌then◌else◌}
use net_perf_test.Exporter.Registry.{Metric, Registry, or_panic, register_each, name_of, has_name}

-- A registry that is the list of its names.
abbrev pub register_name : List String → Metric → Result ℕ (List String)
register_name names m = if has_name (name_of m) names then err 1 else ok (name_of m ∷ names)

abbrev pub name_registry : Registry (List String)
name_registry = record {
  register = register_name;
  must_register = λ names ms. or_panic (register_each register_name names ms);
  names = λ names. names;
  valid = λ m. true;
  takes = λ names m v h.
      (name_of m ∷ names, ap (λ b. if b then err 1 else ok (name_of m ∷ names)) h, refl);
  refuses = λ names m h. (1, ap (λ b. if b then err 1 else ok (name_of m ∷ names)) h);
  must_registers = λ names ms. refl;
}
