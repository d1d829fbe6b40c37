-- ===== src/Stress/Program/Overcount.antt =====
-- The loops that ebpf-stress/bpf/stress.c counts, and those that it goes through.
use net_perf_test.Common.{
  ℕ, zero, suc, ◌+◌, ◌*◌, ◌%◌, ◌≤◌, ◌≡◌, ap, ◌∙◌, arith, Option, some, List, sum, length, map, true,
  if◌then◌else◌, leb,
}
use net_perf_test.Common.Words.{u64_mod}
use net_perf_test.Stress.Program.Loop.{nested_loops}
use net_perf_test.Stress.Program.Rounds.{plain_loop, rounds_of, nested_loops-eq}
use net_perf_test.Stress.Program.Packets.{
  Packet, Verdict, get_loop_count, is_enabled, stress_packet, run_packets,
}
use net_perf_test.Stress.Program.Totals.{
  IsOnCpus, sum-add_all, fresh_maps, zeros, run_packets-columns, values_of, sum-constant, sum-zeros,
  length-zeros,
}

-- The rounds of `perform_stress_loop` for a target: its loops over a body that counts.
abbrev pub rounds_run : ℕ → ℕ
rounds_run target = nested_loops (λ idx done. suc done) target 0

plain_loop-count : (n i done : ℕ) → plain_loop n i (λ idx done. suc done) done ≡ done + n
unfolding plain_loop
plain_loop-count zero i done = omega arith
plain_loop-count (suc n) i done = omega (arith, plain_loop-count n (i + 1) (suc done))

-- What a target between fifty and the largest count has beyond its rows of fifty.
abbrev pub excess : ℕ → ℕ
excess target = if leb 50 target then target % 50 else 0

rounds_run-excess : (target : ℕ) → target ≤ 2500 → rounds_run target + excess target ≡ target
rounds_run-excess target h =
    let run : rounds_run target ≡ 0 + rounds_of target =
      nested_loops-eq (λ idx done. suc done) target 0 ∙ plain_loop-count (rounds_of target) 0 0 in
    rw run (ground arith)

module _ (verdict : Verdict) (enabled : Option ℕ) (cpus : ℕ) where
  stats_loops-eq :
      (n : ℕ) (packets : List Packet)
      → n ≤ 2500
      → is_enabled (fresh_maps (some n) enabled cpus) ≡ true
      → IsOnCpus cpus packets
      → let maps = run_packets (stress_packet verdict) packets (fresh_maps (some n) enabled cpus) in
        sum (values_of maps.stats_loops) % u64_mod ≡ length packets * n % u64_mod
  unfolding get_loop_count
  stats_loops-eq n packets h on on_cpus =
      let same : get_loop_count (fresh_maps (some n) enabled cpus) ≡ n = ground arith in
      let after = run_packets-columns verdict (some n) enabled n packets _ _ _ _ on same in
      let counted = sum-add_all (λ _. n) packets (zeros cpus) (rw (length-zeros cpus) on_cpus) in
      let amount : sum (zeros cpus) + sum (map (λ (_ : Packet). n) packets) ≡ length packets * n =
        omega (arith, sum-zeros cpus, sum-constant n packets) in
      rw after (counted ∙ ap (λ k. k % u64_mod) amount)

  -- A loop count of at most 2500: the counter of loops has for each packet the rounds that were gone
  -- through, and the rest of the count by fifty on top where the count is fifty or more.
  pub stats_loops-overcount :
      (n : ℕ) (packets : List Packet)
      → n ≤ 2500
      → is_enabled (fresh_maps (some n) enabled cpus) ≡ true
      → IsOnCpus cpus packets
      → let maps = run_packets (stress_packet verdict) packets (fresh_maps (some n) enabled cpus) in
        sum (values_of maps.stats_loops) % u64_mod
        ≡ length packets * (rounds_run n + excess n) % u64_mod
  stats_loops-overcount n packets h on on_cpus =
      rw (rounds_run-excess n h) (stats_loops-eq n packets h on on_cpus)
