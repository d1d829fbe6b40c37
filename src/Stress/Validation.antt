-- ===== src/Stress/Validation.antt =====
-- `validateConfig` of ebpf-stress/cmd/ebpf-stress/main.go, and what it means for the loader.
use net_perf_test.Common.{◌≡◌, ◌≢◌, ◌⊎◌, ◌<◌, ◌↔◌, ok, arith, eq_iff, min}
use net_perf_test.Stress.Main.{Config, max_loops, validate_config}

-- What the check accepts, in words of the configuration.
pub record IsAcceptable (c : Config) : Type 0 where
  pub known_hook :
      (c.hook ≡ "xdp") ⊎ (c.hook ≡ "tc-ingress") ⊎ (c.hook ≡ "tc-egress") ⊎ (c.hook ≡ "socket")
  pub named_interface : c.interface_name ≢ ""
  pub some_loops : 0 < c.loops

-- `validateConfig` accepts exactly the configurations with one of the four hooks, a named interface and a
-- loop count above 0; it returns them with the loop count cut down to 2500 and nothing else changed.
pub validate_config-eq_ok :
    (c d : Config)
    → (validate_config c ≡ ok d)
      ↔ (IsAcceptable c × (d ≡ record c { loops = min c.loops max_loops }))
unfolding validate_config
validate_config-eq_ok c d = ground (
  arith,
  eq_iff c.interface_name "",
  eq_iff c.hook "xdp",
  eq_iff c.hook "tc-ingress",
  eq_iff c.hook "tc-egress",
  eq_iff c.hook "socket",
)
