-- ===== src/Common/Sample.antt =====
-- Numbers in place of float64, for the tests.
use Prim.Native.Nat.{ℕ, ◌+◌, ◌-◌, ◌*◌, ◌/◌}
use net_perf_test.Common.Floats.{Floats}
use net_perf_test.Common.Tests.{ltb, leb, ◌==◌}

-- Whole numbers, with the operations rounded down.
abbrev pub naturals : Floats
naturals = record {
  Float = ℕ;
  of_uint = λ n. n;
  seconds = λ n. n / 1000000000;
  div = λ a b. a / b;
  add = λ a b. a + b;
  sub = λ a b. a - b;
  mul = λ a b. a * b;
  gt = λ a b. ltb b a;
  le = leb;
  eq = λ a b. a == b;
}
