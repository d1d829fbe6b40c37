-- ===== src/Stress/Program/Loop.antt =====
-- `perform_stress_loop` of ebpf-stress/bpf/stress.c: the limits, the two bounded loops, and the
-- arithmetic of one round, on `__u64`.
use Prim.Native.Nat.{bit_xor}
use net_perf_test.Common.{ℕ, zero, suc, ◌+◌, ◌*◌, ◌/◌, ◌%◌, ◌^◌, ltb, leb, if◌then◌else◌}
use net_perf_test.Common.Words.{u64_mod, add64}

abbrev pub max_outer_loops : ℕ
max_outer_loops = 50

abbrev pub max_inner_loops : ℕ
max_inner_loops = 50

abbrev pub max_total_loops : ℕ
max_total_loops = max_outer_loops * max_inner_loops

-- The three branches for `outer_limit` and `inner_limit`. The tests of a limit against its bound
-- inside two of them are kept.
unfoldable pub loop_limits : ℕ → ℕ × ℕ
loop_limits target =
    if leb max_total_loops target
    then (max_outer_loops, max_inner_loops)
    else if leb max_inner_loops target
    then (
      (if ltb max_outer_loops (target / max_inner_loops)
          then max_outer_loops
          else target / max_inner_loops),
      max_inner_loops,
    )
    else (1, (if ltb max_inner_loops target then max_inner_loops else target))

module _ {S : Type 0} where
  -- for (i = 0; i < bound; i++) { if (i >= limit) break; body(i) }, from `i` on; `left` is what is
  -- left of the bound.
  unfoldable pub bounded_loop : (left i limit : ℕ) → (ℕ → S → S) → S → S
  bounded_loop zero i limit body s = s
  bounded_loop (suc left) i limit body s =
      let rest = bounded_loop left (i + 1) limit body (body i s) in if leb limit i then s else rest

  -- The two loops over any body, which is given `idx`.
  unfoldable pub nested_loops : (ℕ → S → S) → ℕ → S → S
  nested_loops body target s =
      let (outer_limit, inner_limit) = loop_limits target in
      bounded_loop max_outer_loops 0 outer_limit
        (λ outer t.
          bounded_loop max_inner_loops 0 inner_limit
            (λ inner u. body (outer * max_inner_loops + inner) u) t)
        s

abbrev pub mul64 : ℕ → ℕ → ℕ
mul64 a b = a * b % u64_mod

-- `a ^ (a << n)` and `a ^ (a >> n)`
abbrev pub xor_left : ℕ → ℕ → ℕ
xor_left n a = bit_xor a (mul64 a (2 ^ n))

abbrev pub xor_right : ℕ → ℕ → ℕ
xor_right n a = bit_xor a (a / 2 ^ n)

pub record Work : Type 0 where
  pub overhead : ℕ
  pub work : ℕ

-- The arithmetic chain and the bitwise operations on `work`.
unfoldable pub chain : ℕ → ℕ
chain idx =
    let w = add64 (mul64 idx 7) 13 in
    let w = add64 (mul64 w 11) 17 in
    let w = add64 (mul64 w 13) 19 in
    let w = add64 (mul64 w 17) 23 in xor_right 17 (xor_left 13 (xor_right 11 (xor_left 7 w)))

-- One round: `work` is computed anew, and mixed into `overhead`.
unfoldable pub stress_round : ℕ → Work → Work
stress_round idx s =
    let w = chain idx in
    let o = xor_left 3 (add64 s.overhead w) in
    let o = xor_right 5 (add64 (mul64 o 3) 29) in
    let o = xor_left 11 (add64 (mul64 o 7) 31) in
    record { overhead = add64 o (mul64 idx 37); work = w }

unfoldable pub perform_stress_loop : ℕ → ℕ
perform_stress_loop target_loops =
    let done = nested_loops stress_round target_loops (record { overhead = 0; work = 0 }) in
    add64 done.overhead done.work
