-- ===== src/Reproducer/Pods.antt =====
-- Where `discoverPrometheus` and `main` of af_packet_reproducer/main.go disagree.
use net_perf_test.Common.{
  ℕ, ◌≡◌, ◌↔◌, sym, ap, arith, true, false, String, Option, none, some, List, Result, ok, err,
  Bool-cases, inl, inr, if◌then◌else◌,
}
use net_perf_test.Reproducer.Prometheus.Types.{Config}
use net_perf_test.Reproducer.Discovery.{
  no_pod, Cluster, Discovered, DiscoverError, name_label, any_pod, or_else, with_nodes, with_client,
  with_config, discovered_pods, discover_prometheus, load_config, first_pod, main_pod,
}

module _ (cluster : Cluster) where
  open cluster use {pods}

  config_or : Config → Result DiscoverError Discovered → Config
  config_or config (ok d) = d.config
  config_or config (err _) = config

  with_nodes-config :
      (config : Config) (r : Result ℕ (List String)) (d : Discovered)
      → with_nodes config r ≡ ok d
      → config ≡ d.config
  unfolding config_or
  with_nodes-config config (ok names) d h = ap (config_or config) h
  with_nodes-config config (err e) d h = ap (config_or config) h

  with_client-pods :
      (config : Config) (o : Option ℕ) (d : Discovered)
      → with_client cluster config o ≡ ok d
      → any_pod (discovered_pods cluster d.config) ≡ true
  with_client-pods config (some e) d h = ground arith
  with_client-pods config none d h = elim (Bool-cases (any_pod (discovered_pods cluster config))) [
    | inl e ↦ rw (sym (with_nodes-config config (cluster.nodes config) d (rw e at h))) e
    | inr e ↦ let bad : err no_pod ≡ ok d = rw e at h in ground arith
  ]

  with_config-pods :
      (r : Result ℕ Config) (d : Discovered)
      → with_config cluster r ≡ ok d
      → any_pod (discovered_pods cluster d.config) ≡ true
  with_config-pods (ok config) d h = with_client-pods config (cluster.new_client config) d h
  with_config-pods (err e) d h = ground arith

  first_pod-none :
      (a b c : Result ℕ (List String))
      → any_pod (or_else a (or_else b c)) ≡ true
      → ((if any_pod a then first_pod "openshift-monitoring" a else first_pod "monitoring" b)
          ≡ none)
        ↔ ((any_pod a ≡ false) × (any_pod b ≡ false) × (any_pod c ≡ true))
  first_pod-none a b c h = ground arith

  -- Where `discoverPrometheus` succeeds, `main` finds no pod in just the one case that the label
  -- `app.kubernetes.io/name=prometheus` finds none in both namespaces, and that the label
  -- `prometheus=prometheus-k8s`, which only `discoverPrometheus` tries, finds one.
  pub discover-main_pod :
      (path : String) (d : Discovered)
      → discover_prometheus cluster path ≡ ok d
      → (main_pod cluster d.config ≡ none) ↔ (
          (any_pod (pods d.config "openshift-monitoring" name_label) ≡ false)
          × (any_pod (pods d.config "monitoring" name_label) ≡ false)
          × (any_pod (pods d.config "monitoring" "prometheus=prometheus-k8s") ≡ true))
  unfolding discover_prometheus main_pod discovered_pods
  discover-main_pod path d h =
      first_pod-none (pods d.config "openshift-monitoring" name_label) _ _
        (with_config-pods (load_config cluster path) d h)
