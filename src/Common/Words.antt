-- ===== src/Common/Words.antt =====
-- Go's uint64 arithmetic: sums and differences wrap at 2 ^ 64.
use Prim.Native.Nat.{ℕ, ◌+◌, ◌-◌, ◌%◌, ◌^◌, ◌≤◌, ◌<◌}
use mathlib.Core.Path.{◌≡◌, ◌∙◌}
use mathlib.Core.List.{List, [], ◌∷◌}
use native.Mathlib.Omega.{arith}
use net_perf_test.Common.Lists.{sum}

abbrev pub u64_mod : ℕ
u64_mod = 2 ^ 64

abbrev pub add64 : ℕ → ℕ → ℕ
add64 a b = (a + b) % u64_mod

abbrev pub sub64 : ℕ → ℕ → ℕ
sub64 a b = (a + u64_mod - b) % u64_mod

-- Without a wrap, the difference of two readings is the exact increase.
pub sub64_exact : (a b : ℕ) → b ≤ a → a < u64_mod → sub64 a b ≡ a - b
sub64_exact a b h k = omega arith

-- `for _, v := range values { total += v }`
pub sum_onto : ℕ → List ℕ → ℕ
sum_onto total [] = total
sum_onto total (v ∷ vs) = sum_onto (add64 total v) vs

pub sum_onto-eq :
    (total : ℕ) (vs : List ℕ) → sum_onto (total % u64_mod) vs ≡ (total + sum vs) % u64_mod
unfolding sum_onto
sum_onto-eq total [] = omega arith
sum_onto-eq total (v ∷ vs) =
    let wrapped : add64 (total % u64_mod) v ≡ (total + v) % u64_mod = omega arith in
    rw wrapped (sum_onto-eq (total + v) vs ∙ omega arith)

-- The loop from 0 gives the sum, wrapped.
pub sum_onto-zero : (vs : List ℕ) → sum_onto 0 vs ≡ sum vs % u64_mod
sum_onto-zero vs = sum_onto-eq 0 vs ∙ omega arith
