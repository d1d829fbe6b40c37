-- ===== src/Stress/Program/Totals.antt =====
-- What the maps of ebpf-stress/bpf/stress.c hold after any packets, and what `GetStats` of
-- ebpf-stress/pkg/ebpf/loader.go then reports.
use net_perf_test.Common.{
  ℕ, zero, suc, ◌+◌, ◌*◌, ◌%◌, ◌<◌, ◌≡◌, refl, sym, ap, ◌∙◌, arith, Option, none, some, List, [],
  ◌∷◌, sum, length, All, map, true, ok, is_some,
}
use net_perf_test.Common.Words.{u64_mod, sub64}
use net_perf_test.Common.Floats.{Floats}
use net_perf_test.Stress.Loader.Types.{System, Run, Loader}
use net_perf_test.Stress.Loader.Readings.{Stats, get_stats}
use net_perf_test.Stress.Loader.Totals.{
  average, MapState, per_cpu, IsReading, total_at, get_stats-eq,
}
use net_perf_test.Stress.Program.Packets.{
  Maps, Packet, Verdict, get_loop_count, is_enabled, fetch_and_add, update_stats, stress_packet,
  run_packets,
}

length-fetch_and_add :
    (cpu n : ℕ) (values : List ℕ) → length (fetch_and_add cpu n values) ≡ length values
unfolding fetch_and_add
length-fetch_and_add cpu n [] = refl
length-fetch_and_add zero n (v ∷ vs) = refl
length-fetch_and_add (suc cpu) n (v ∷ vs) = ap suc (length-fetch_and_add cpu n vs)

-- An addition on a CPU that is there moves the sum of the values, modulo 2 ^ 64.
sum-fetch_and_add :
    (cpu n : ℕ) (values : List ℕ)
    → cpu < length values
    → sum (fetch_and_add cpu n values) % u64_mod ≡ (sum values + n) % u64_mod
unfolding fetch_and_add
sum-fetch_and_add cpu n [] h = omega (arith, h)
sum-fetch_and_add zero n (v ∷ vs) h = omega arith
sum-fetch_and_add (suc cpu) n (v ∷ vs) h = omega (arith, sum-fetch_and_add cpu n vs (omega arith))

-- The additions of the packets to one map, `amount` for each.
abbrev pub add_all : (Packet → ℕ) → List Packet → List ℕ → List ℕ
add_all amount [] values = values
add_all amount (packet ∷ packets) values =
    add_all amount packets (fetch_and_add packet.cpu (amount packet) values)

abbrev pub IsOnCpus : ℕ → List Packet → Type 0
IsOnCpus cpus = All (λ packet. packet.cpu < cpus)

pub sum-add_all :
    (amount : Packet → ℕ) (packets : List Packet) (values : List ℕ)
    → IsOnCpus (length values) packets
    → sum (add_all amount packets values) % u64_mod
      ≡ (sum values + sum (map amount packets)) % u64_mod
sum-add_all amount [] values h = omega arith
sum-add_all amount (packet ∷ packets) values (here, rest) =
    let added = fetch_and_add packet.cpu (amount packet) values in
    let same = length-fetch_and_add packet.cpu (amount packet) values in
    omega (
      arith,
      sum-add_all amount packets added (rw same rest),
      sum-fetch_and_add packet.cpu (amount packet) values here,
    )

-- The time that a packet takes, on the wrapping clock.
abbrev pub duration : Packet → ℕ
duration packet = sub64 packet.end_time packet.start_time

-- Maps whose columns are there.
abbrev pub columns : (count enabled : Option ℕ) → (packets loops bytes time_ns : List ℕ) → Maps
columns count enabled packets loops bytes time_ns = record {
  config_loop_count = count;
  config_enabled = enabled;
  stats_packets = some packets;
  stats_loops = some loops;
  stats_bytes = some bytes;
  stats_time_ns = some time_ns;
}

abbrev pub zeros : ℕ → List ℕ
zeros zero = []
zeros (suc n) = 0 ∷ zeros n

-- The maps as the kernel makes them: each CPU stands at 0.
abbrev pub fresh_maps : (count enabled : Option ℕ) → ℕ → Maps
fresh_maps count enabled cpus =
    columns count enabled (zeros cpus) (zeros cpus) (zeros cpus) (zeros cpus)

pub sum-zeros : (n : ℕ) → sum (zeros n) ≡ 0
sum-zeros zero = refl
sum-zeros (suc n) = omega (arith, sum-zeros n)

pub length-zeros : (n : ℕ) → length (zeros n) ≡ n
length-zeros zero = refl
length-zeros (suc n) = ap suc (length-zeros n)

module _ (verdict : Verdict) (count enabled : Option ℕ) (n : ℕ) where
  -- The packets add up in each column on its own.
  pub run_packets-columns :
      (packets : List Packet) (p l b t : List ℕ)
      → is_enabled (columns count enabled p l b t) ≡ true
      → get_loop_count (columns count enabled p l b t) ≡ n
      → run_packets (stress_packet verdict) packets (columns count enabled p l b t)
        ≡ columns count enabled
            (add_all (λ _. 1) packets p)
            (add_all (λ _. n) packets l)
            (add_all (λ x. x.len) packets b)
            (add_all duration packets t)
  unfolding run_packets stress_packet update_stats is_enabled get_loop_count
  run_packets-columns [] p l b t on loops = refl
  run_packets-columns (packet ∷ packets) p l b t on loops =
      rw (on, loops) (run_packets-columns packets _ _ _ _ on loops)

-- The loader's handle is of a map that holds the column.
abbrev pub Shown : (ℕ → MapState) → Option ℕ → Option (List ℕ) → Type 0
Shown state handle column =
    (m : ℕ) × (values : List ℕ) × (handle ≡ some m)
    × (column ≡ some values)
    × (state m ≡ per_cpu values)

-- The loader has the four maps of the program.
pub record IsShown (state : ℕ → MapState) (loader : Loader) (maps : Maps) : Type 0 where
  pub packets : Shown state loader.packets_map maps.stats_packets
  pub loops : Shown state loader.loops_map maps.stats_loops
  pub bytes : Shown state loader.bytes_map maps.stats_bytes
  pub time_ns : Shown state loader.time_map maps.stats_time_ns

abbrev pub values_of : Option (List ℕ) → List ℕ
values_of none = []
values_of (some values) = values

module _ (state : ℕ → MapState) where
  total-Shown :
      (handle : Option ℕ) (column : List ℕ)
      → Shown state handle (some column)
      → total_at state handle ≡ sum column % u64_mod
  total-Shown handle column (m, values, p, q, r) =
      let same : column ≡ values = ap values_of q in rw (p, r, same) refl

  -- A column that starts at zeros has the sum of the amounts, wrapped.
  pub total-add_all :
      (handle : Option ℕ) (cpus : ℕ) (amount : Packet → ℕ) (packets : List Packet)
      → IsOnCpus cpus packets
      → Shown state handle (some (add_all amount packets (zeros cpus)))
      → total_at state handle ≡ sum (map amount packets) % u64_mod
  total-add_all handle cpus amount packets on_cpus shown =
      let counted = sum-add_all amount packets (zeros cpus) (rw (length-zeros cpus) on_cpus) in
      omega (arith, total-Shown handle _ shown, counted, sum-zeros cpus)

abbrev pub expected : (sys : System) (floats : Floats) → ℕ → List Packet → Stats floats.Float
expected sys floats loop_count packets =
    let seen = length packets % u64_mod in
    let loops = length packets * loop_count % u64_mod in
    let time_ns = sum (map duration packets) % u64_mod in
    record {
      packets_processed = seen;
      total_loops = loops;
      total_bytes = sum (map (λ x. x.len) packets) % u64_mod;
      total_time_ns = time_ns;
      loops_per_packet = average floats seen loops;
      avg_time_per_packet = average floats seen time_ns;
    }

pub sum-constant : (n : ℕ) (packets : List Packet) → sum (map (λ _. n) packets) ≡ length packets * n
sum-constant n [] = omega arith
sum-constant n (_ ∷ packets) = grind (arith, sum-constant n packets)

pub sum-ones : (packets : List Packet) → sum (map (λ _. 1) packets) ≡ length packets
sum-ones [] = refl
sum-ones (_ ∷ packets) = omega (arith, sum-ones packets)

module _ (sys : System) (state : ℕ → MapState) (reading : IsReading sys state)
    (floats : Floats) where
  -- The packets that a program sees on fresh maps that are enabled come back in the four counters of
  -- `GetStats`, modulo 2 ^ 64: how many they are, the loop count for each, their lengths and their
  -- times; whichever program, and whichever CPUs they come in on.
  pub get_stats-packets :
      (verdict : Verdict) (count enabled : Option ℕ) (cpus : ℕ) (packets : List Packet) (s : Run)
      → is_enabled (fresh_maps count enabled cpus) ≡ true
      → IsOnCpus cpus packets
      → is_some s.loader.collection ≡ true
      → IsShown state s.loader
          (run_packets (stress_packet verdict) packets (fresh_maps count enabled cpus))
      → (get_stats sys floats s).0
        ≡ ok (expected sys floats (get_loop_count (fresh_maps count enabled cpus)) packets)
  get_stats-packets verdict count enabled cpus packets s on on_cpus held shown =
      let n = get_loop_count (fresh_maps count enabled cpus) in
      let after = run_packets-columns verdict count enabled n packets _ _ _ _ on refl in
      let shown : IsShown state s.loader (columns count enabled _ _ _ _) = rw (sym after) shown in
      let p =
        total-add_all state s.loader.packets_map cpus (λ _. 1) packets on_cpus shown.packets in
      let l = total-add_all state s.loader.loops_map cpus (λ _. n) packets on_cpus shown.loops in
      let b =
        total-add_all state s.loader.bytes_map cpus (λ x. x.len) packets on_cpus shown.bytes in
      let t = total-add_all state s.loader.time_map cpus duration packets on_cpus shown.time_ns in
      let p : total_at state s.loader.packets_map ≡ length packets % u64_mod =
        p ∙ ap (λ k. k % u64_mod) (sum-ones packets) in
      let l : total_at state s.loader.loops_map ≡ length packets * n % u64_mod =
        l ∙ ap (λ k. k % u64_mod) (sum-constant n packets) in
      get_stats-eq sys state reading floats s ∙ rw (held, p, l, b, t) refl
