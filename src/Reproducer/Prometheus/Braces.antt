-- ===== src/Reproducer/Prometheus/Braces.antt =====
-- Whether the PromQL that af_packet_reproducer/main.go writes has its braces in order.
use Prim.Native.Char.{code}
use Prim.Native.Char.{Char}
use text.Mathlib.TextLemmas.{nil-append, cons-append}
use net_perf_test.Common.{
  ℕ, ◌≡◌, arith, refl, ◌||◌, Bool, true, false, Option, none, some, String, ◌<>◌, All, ◌==◌, str_eq,
  if◌then◌else◌,
}
use net_perf_test.Reproducer.Prometheus.Queries.{
  usage_query, mode_query, memory_query, throughput_query, network_query, softirq_query,
  instance_selector, device_selector, softirq_selector, cpu_queries, memory_queries,
  network_queries, softirq_queries,
}

-- One character: a brace opens outside of braces only, and closes inside. `none` is a bad brace.
abbrev brace : ℕ → Bool → Option Bool
brace c inside =
    if c == b'{'
    then (if inside then none else some true)
    else if c == b'}'
    then (if inside then some false else none)
    else some inside

abbrev brace_at : Char → Option Bool → Option Bool
brace_at c none = none
brace_at c (some inside) = brace (code c) inside

-- Whether the text ends inside of braces.
abbrev pub braces : String → Option Bool → Option Bool
braces String.[] s = s
braces (String.◌∷◌ c t) s = braces t (brace_at c s)

abbrev pub has_brace : String → Bool
has_brace String.[] = false
has_brace (String.◌∷◌ c t) = code c == b'{' || code c == b'}' || has_brace t

braces-append : (s t : String) (b : Option Bool) → braces (s <> t) b ≡ braces t (braces s b)
braces-append String.[] t b = rw (nil-append t) refl
braces-append (String.◌∷◌ c s) t b = rw (cons-append c s t) (braces-append s t (brace_at c b))

braces-none : (s : String) → braces s none ≡ none
braces-none String.[] = refl
braces-none (String.◌∷◌ c s) = braces-none s

braces_free :
    (s : String) (inside : Bool) → has_brace s ≡ false → braces s (some inside) ≡ some inside
braces_free String.[] inside h = refl
braces_free (String.◌∷◌ c s) inside h = ground (arith, braces_free s inside)

braces_if :
    (b : Bool) (s t : String) (inside : Option Bool)
    → braces (if b then s else t) inside ≡ (if b then braces s inside else braces t inside)
braces_if true s t inside = refl
braces_if false s t inside = refl

module _ (filter : String) (free : has_brace filter ≡ false) where
  instance_closed : braces (instance_selector filter) (some false) ≡ some false
  unfolding instance_selector
  instance_closed = simp (braces_if, braces-append, braces_free filter true free) (ground arith)

  instance_inside :
      braces (instance_selector filter) (some true) ≡ (if str_eq filter "" then some true else none)
  unfolding instance_selector
  instance_inside = simp (braces_if, braces-append, braces-none) (ground arith)

  device_closed : braces (device_selector filter) (some false) ≡ some false
  unfolding device_selector
  device_closed = simp (braces_if, braces-append, braces_free filter true free) (ground arith)

  softirq_closed :
      (d : String)
      → has_brace d ≡ false
      → braces (softirq_selector d filter) (some false) ≡ some false
  unfolding softirq_selector
  softirq_closed d h =
      simp (braces_if, braces-append, braces_free d true h, braces_free filter true free)
        (ground arith)

  pub usage-braces :
      braces (usage_query filter) (some false) ≡ (if str_eq filter "" then some false else none)
  usage-braces = simp (braces-append, instance_inside) (ground arith)

  pub mode-braces :
      (m : String)
      → has_brace m ≡ false
      → braces (mode_query m filter) (some false) ≡ (if str_eq filter "" then some false else none)
  mode-braces m h = simp (braces-append, instance_inside, braces_free m true h) (ground arith)

  memory-braces :
      (m : String) → has_brace m ≡ false → braces (memory_query m filter) (some false) ≡ some false
  memory-braces m h = simp (braces-append, instance_closed, braces_free m false h)

  network-braces :
      (m : String) → has_brace m ≡ false → braces (network_query m filter) (some false) ≡ some false
  network-braces m h = simp (braces-append, device_closed, braces_free m false h)

  throughput-braces :
      (m : String)
      → has_brace m ≡ false
      → braces (throughput_query m filter) (some false) ≡ some false
  throughput-braces m h = simp (braces-append, device_closed, braces_free m false h)

  softirq-braces :
      (d : String) → has_brace d ≡ false → braces (softirq_query d filter) (some false) ≡ some false
  softirq-braces d h = simp (braces-append, softirq_closed d h)

  -- For a node filter without a brace: the braces of the queries of the memory, of the network and
  -- of the softirqs are in order; those of the five queries of the CPU are only where the filter is
  -- empty, since a selector of the instance in braces of its own stands within their braces.
  pub sample_queries-braces :
      All
        (λ q. braces q (some false) ≡ (if str_eq filter "" then some false else none))
        (cpu_queries filter)
      × All (λ q. braces q (some false) ≡ some false) (memory_queries filter)
      × All (λ q. braces q (some false) ≡ some false) (network_queries filter)
      × All (λ q. braces q (some false) ≡ some false) (softirq_queries filter)
  sample_queries-braces = (
    (
      usage-braces,
      (
        mode-braces "softirq" refl,
        (mode-braces "user" refl, (mode-braces "system" refl, (mode-braces "idle" refl, tt))),
      ),
    ),
    (memory-braces "MemTotal" refl, (memory-braces "MemAvailable" refl, tt)),
    (
      throughput-braces "receive_bytes" refl,
      (
        throughput-braces "transmit_bytes" refl,
        (
          network-braces "receive_packets" refl,
          (
            network-braces "transmit_packets" refl,
            (
              network-braces "receive_drop" refl,
              (
                network-braces "transmit_drop" refl,
                (network-braces "receive_errs" refl, (network-braces "transmit_errs" refl, tt)),
              ),
            ),
          ),
        ),
      ),
    ),
    (softirq-braces "NET_RX" refl, (softirq-braces "NET_TX" refl, tt)),
  )
