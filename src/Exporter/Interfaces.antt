-- ===== src/Exporter/Interfaces.antt =====
-- `getInterfacesToMonitor` and `getAllNetworkInterfaces` of
-- ebpf-exporter/cmd/ebpf-exporter/main.go.
use net_perf_test.Common.{
  ℕ, String, Bool, false, List, [], ◌∷◌, Result, ok, err, ◌||◌, str_eq, if◌then◌else◌,
}

-- `net.Interface`, with whether its flags hold `net.FlagUp`.
pub record NetInterface : Type 0 where
  pub name : String
  pub is_up : Bool

unfoldable pub names_up : List NetInterface → List String
names_up [] = []
names_up (iface ∷ ifaces) =
    let rest = names_up ifaces in if iface.is_up then iface.name ∷ rest else rest

-- The argument is what `net.Interfaces` returns.
unfoldable pub get_all_network_interfaces : Result ℕ (List NetInterface) → List String
get_all_network_interfaces (err _) = "lo" ∷ []
get_all_network_interfaces (ok ifaces) = names_up ifaces

abbrev pub has_wildcard : List String → Bool
has_wildcard [] = false
has_wildcard (iface ∷ ifaces) = str_eq iface "*" || has_wildcard ifaces

abbrev pub default_interfaces : List String
default_interfaces = "lo" ∷ "eth0" ∷ "ens192" ∷ "enp0s3" ∷ []

unfoldable pub get_interfaces_to_monitor : List String → Result ℕ (List NetInterface) → List String
get_interfaces_to_monitor [] found = default_interfaces
get_interfaces_to_monitor (iface ∷ ifaces) found =
    if has_wildcard (iface ∷ ifaces) then get_all_network_interfaces found else iface ∷ ifaces
