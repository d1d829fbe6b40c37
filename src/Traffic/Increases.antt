-- ===== src/Traffic/Increases.antt =====
-- What the reports of traffic-gen add up to.
use net_perf_test.Common.{ℕ, ◌+◌, ◌≤◌, ◌<◌, ◌≡◌, refl, ap, ◌∙◌, arith, List, [], ◌∷◌, map, sum}
use net_perf_test.Common.Words.{sub64, u64_mod}
use net_perf_test.Common.Floats.{Floats}
use net_perf_test.Traffic.Reports.{Reading, report_stats_from, report_stats}

-- The last entry of the list, and `n` if it is empty.
abbrev pub last_of : ℕ → List ℕ → ℕ
last_of n [] = n
last_of n (x ∷ xs) = last_of x xs

-- The readings of a counter do not shrink, and fit a uint64.
abbrev pub Grows : ℕ → List ℕ → Type 0
Grows n [] = Unit
Grows n (x ∷ xs) = (n ≤ x) × (x < u64_mod) × Grows x xs

-- The differences between a reading and the one before.
abbrev pub differences : ℕ → List ℕ → List ℕ
differences n [] = []
differences n (x ∷ xs) = sub64 x n ∷ differences x xs

sum-differences_from :
    (n : ℕ) (xs : List ℕ) → Grows n xs → sum (differences n xs) + n ≡ last_of n xs
sum-differences_from n [] h = omega arith
sum-differences_from n (x ∷ xs) (le, lt, h) = omega (arith, sum-differences_from x xs h)

-- The differences of readings from 0 add up to the last.
pub sum-differences : (xs : List ℕ) → Grows 0 xs → sum (differences 0 xs) ≡ last_of 0 xs
sum-differences xs h = omega (arith, sum-differences_from 0 xs h)

module _ (floats : Floats) (start_time : ℕ) where
  increases-eq :
      (last : Reading) (readings : List Reading)
      → map (λ r. r.increase) (report_stats_from floats start_time last readings)
        ≡ differences last.packets (map (λ r. r.packets) readings)
  unfolding report_stats_from
  increases-eq last [] = refl
  increases-eq last (reading ∷ readings) =
      ap (λ rest. sub64 reading.packets last.packets ∷ rest) (increases-eq reading readings)

  -- The increases in the reports of a run add up to the last reading of the counter, where the
  -- readings do not shrink and fit a uint64: no packet is left out or counted twice.
  pub report_stats-increases :
      (begun : ℕ) (readings : List Reading)
      → Grows 0 (map (λ r. r.packets) readings)
      → sum (map (λ r. r.increase) (report_stats floats start_time begun readings))
        ≡ last_of 0 (map (λ r. r.packets) readings)
  unfolding report_stats
  report_stats-increases begun readings h =
      ap sum (increases-eq (record { packets = 0; time = begun }) readings)
      ∙ sum-differences (map (λ r. r.packets) readings) h
