-- ===== src/Exporter/Priority.antt =====
-- Which source of the configuration wins in ebpf-exporter/cmd/ebpf-exporter/main.go, and which
-- interfaces are monitored.
use net_perf_test.Common.{
  ℕ, ◌≡◌, ◌≢◌, refl, ◌∙◌, String, false, Option, List, [], ◌∷◌, ◌++◌, Result, arith, eq_iff, ◌&&◌,
  if◌then◌else◌, Bool-cases, inl, inr,
}
use mathlib.Core.List.{append-nil, append_assoc}
use net_perf_test.Common.Ints.{ℤ}
use net_perf_test.Exporter.Configuration.{
  YamlConfig, InterfaceEntry, Config, is_given, append_enabled, apply_yaml_config,
}
use net_perf_test.Exporter.Interfaces.{NetInterface, has_wildcard, get_interfaces_to_monitor}

-- The names of the entries that are enabled and named.
pub enabled_names : List InterfaceEntry → List String
enabled_names [] = []
enabled_names (iface ∷ ifaces) =
    let rest = enabled_names ifaces in
    if iface.enabled && is_given iface.name then iface.name ∷ rest else rest

append_enabled-eq :
    (ifaces : List InterfaceEntry) (names : List String)
    → append_enabled ifaces names ≡ names ++ enabled_names ifaces
unfolding append_enabled enabled_names
append_enabled-eq [] names = rw append-nil
append_enabled-eq (iface ∷ ifaces) names =
    elim (Bool-cases (iface.enabled && is_given iface.name)) [
      | inl p ↦ rw p (append_enabled-eq ifaces _ ∙ append_assoc names (iface.name ∷ []) _)
      | inr p ↦ rw p (append_enabled-eq ifaces names)
    ]

module _ (parse_duration : String → Option ℤ) where
  -- The pin path of the new format wins over the one that was set before, and that wins over the
  -- old format's, which counts only if both others are empty. The interfaces of the file that are
  -- enabled and named come behind those that were given, in their order.
  pub apply_yaml_config_priority :
      (y : YamlConfig) (c : Config)
      → ((apply_yaml_config parse_duration y c).pin_path ≡ (
          if is_given y.ebpf_stress.pin_path
          then y.ebpf_stress.pin_path
          else if is_given c.pin_path
          then c.pin_path
          else y.ebpf_pin_path))
        × ((apply_yaml_config parse_duration y c).interfaces
            ≡ c.interfaces ++ enabled_names y.interfaces)
  unfolding apply_yaml_config
  apply_yaml_config_priority y c =
      (ground (arith, eq_iff y.ebpf_pin_path "", eq_iff c.pin_path ""), append_enabled-eq _ _)

  -- Where a pin path is set before the file is applied, as the flag's default does, the old
  -- format's pin path has no effect at all.
  pub old_pin_path_ignored :
      (y : YamlConfig) (c : Config) (path : String)
      → c.pin_path ≢ ""
      → apply_yaml_config parse_duration (record y { ebpf_pin_path = path }) c
        ≡ apply_yaml_config parse_duration y c
  unfolding apply_yaml_config
  old_pin_path_ignored y c path h =
      ground (arith, eq_iff c.pin_path "", eq_iff y.ebpf_stress.pin_path "")

-- Without the wildcard among the configured interfaces, the monitored ones are not empty and have
-- no wildcard among them: the configured ones, or four default names if none is configured.
pub get_interfaces_to_monitor_named :
    (configured : List String) (found : Result ℕ (List NetInterface))
    → has_wildcard configured ≡ false
    → (get_interfaces_to_monitor configured found ≢ [])
      × (has_wildcard (get_interfaces_to_monitor configured found) ≡ false)
unfolding get_interfaces_to_monitor
get_interfaces_to_monitor_named [] found h = (λ e. cc, refl)
get_interfaces_to_monitor_named (iface ∷ ifaces) found h = rw h (λ e. cc, h)
