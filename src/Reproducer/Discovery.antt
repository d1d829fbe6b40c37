-- ===== src/Reproducer/Discovery.antt =====
-- `discoverPrometheus`, `setupPortForward` and the search of `main` for the pod of Prometheus, in
-- af_packet_reproducer/main.go.
use net_perf_test.Common.{
  ℕ, Bool, true, false, not, String, Option, none, some, List, [], ◌∷◌, Result, ok, err, ◌<>◌,
  str_eq, if◌then◌else◌,
}
use net_perf_test.Reproducer.Prometheus.Types.{Config}

-- What the clients of Kubernetes answer, errors being numbers; `default_path` is
-- `filepath.Join(home, ".kube", "config")`. The pods by namespace and label, and the nodes, do not
-- change during a run.
pub record Cluster : Type 0 where
  pub build_config : String → Result ℕ Config
  pub in_cluster_config : Result ℕ Config
  pub home : String
  pub default_path : String → String
  pub new_client : Config → Option ℕ
  pub pods : Config → String → String → Result ℕ (List String)
  pub nodes : Config → Result ℕ (List String)
  pub parse_url : String → Option ℕ
  pub round_tripper : Config → Option ℕ
  pub new_forwarder : String → List String → Option ℕ

pub data DiscoverError : Type 0 where
  no_kubeconfig no_client no_nodes : ℕ → DiscoverError
  no_pod : DiscoverError

pub record Discovered : Type 0 where
  pub url : String
  pub config : Config
  pub node_filter : String

abbrev pub name_label : String
name_label = "app.kubernetes.io/name=prometheus"

-- `err == nil && len(pods.Items) > 0`
abbrev pub any_pod : Result ℕ (List String) → Bool
any_pod (ok (_ ∷ _)) = true
any_pod _ = false

abbrev pub or_else : Result ℕ (List String) → Result ℕ (List String) → Result ℕ (List String)
or_else found next = if any_pod found then found else next

-- `strings.Join(names, "|")`
unfoldable pub join_names : List String → String
join_names [] = ""
join_names (name ∷ []) = name
join_names (name ∷ next ∷ rest) = name <> "|" <> join_names (next ∷ rest)

unfoldable pub node_filter_of : List String → String
node_filter_of names =
    let joined = join_names names in
    if not (str_eq joined "") then ".*(" <> joined <> ").*" else joined

abbrev pub with_nodes : Config → Result ℕ (List String) → Result DiscoverError Discovered
with_nodes config (err e) = err (no_nodes e)
with_nodes config (ok names) =
    ok (record {
      url = "http://localhost:9090";
      config = config;
      node_filter = node_filter_of names;
    })

abbrev pub first_pod : String → Result ℕ (List String) → Option (String × String)
first_pod namespace (ok (pod ∷ _)) = some (namespace, pod)
first_pod namespace _ = none

module _ (cluster : Cluster) where
  open cluster use {build_config, in_cluster_config, home, default_path, new_client, pods, nodes}

  abbrev pub or_default : Result ℕ Config → Result ℕ Config
  or_default (ok config) = ok config
  or_default (err e) = if not (str_eq home "") then build_config (default_path home) else err e

  unfoldable pub load_config : String → Result ℕ Config
  load_config path =
      if not (str_eq path "") then build_config path else or_default in_cluster_config

  -- The pods by which `discoverPrometheus` goes on.
  unfoldable pub discovered_pods : Config → Result ℕ (List String)
  discovered_pods config = or_else (pods config "openshift-monitoring" name_label) (
      or_else (pods config "monitoring" name_label)
        (pods config "monitoring" "prometheus=prometheus-k8s"))

  abbrev pub with_client : Config → Option ℕ → Result DiscoverError Discovered
  with_client config (some e) = err (no_client e)
  with_client config none =
      if any_pod (discovered_pods config) then with_nodes config (nodes config) else err no_pod

  abbrev pub with_config : Result ℕ Config → Result DiscoverError Discovered
  with_config (err e) = err (no_kubeconfig e)
  with_config (ok config) = with_client config (new_client config)

  unfoldable pub discover_prometheus : String → Result DiscoverError Discovered
  discover_prometheus path = with_config (load_config path)

  -- The namespace and the pod that `main` forwards a port to.
  unfoldable pub main_pod : Config → Option (String × String)
  main_pod config =
      let found = pods config "openshift-monitoring" name_label in
      if any_pod found
      then first_pod "openshift-monitoring" found
      else first_pod "monitoring" (pods config "monitoring" name_label)

  -- The error of `setupPortForward`, if any; the forwarding runs in a goroutine.
  unfoldable pub setup_port_forward : Config → String → String → Option ℕ
  setup_port_forward config namespace pod =
      let url =
        config.host <> "/api/v1/namespaces/" <> namespace <> "/pods/" <> pod <> "/portforward" in
      elim (cluster.parse_url url) [
        | some e ↦ some e
        | none ↦ elim (cluster.round_tripper config) [
          | some e ↦ some e
          | none ↦ cluster.new_forwarder url ("9090:9090" ∷ [])
        ]
      ]
