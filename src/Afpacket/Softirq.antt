-- ===== src/Afpacket/Softirq.antt =====
-- `getSoftIRQPercent`, `monitorCPUSoftIRQ` and the verdict of `printFinalStats` in
-- traffic-generator/cmd/afpacket-stress/main.go. The values are float64, by the interface `Floats`.
use net_perf_test.Common.{
  ℕ, suc, String, Bool, Option, none, some, List, [], ◌∷◌, Result, ok, err, leb, not, ◌&&◌,
  if◌then◌else◌,
}
use net_perf_test.Common.Words.{add64, sub64}
use net_perf_test.Common.Floats.{Floats}

-- The text functions of the standard library, and the parser of float64.
pub record Texts (F : Type 0) : Type 0 where
  pub contains : String → String → Bool
  pub lines : String → List String
  pub fields : String → List String
  pub parse_float : String → Option F

-- `peakSoftIRQ`, `avgSoftIRQ` and `softIRQSamples`
pub record Monitor (F : Type 0) : Type 0 where
  pub peak : F
  pub avg : F
  pub samples : ℕ

pub data Verdict : Type 0 where
  issue_replicated partial_replication not_replicated : Verdict

module _ (floats : Floats) (texts : Texts floats.Float) where
  open floats use {Float, of_uint, gt}
  open texts use {contains, lines, fields, parse_float}

  -- `val > 0 && val <= 100`
  abbrev pub is_percent : Float → Bool
  is_percent v = gt v (of_uint 0) && floats.le v (of_uint 100)

  abbrev pub percent_of : Option Float → Option Float
  percent_of none = none
  percent_of (some v) = if is_percent v then some v else none

  abbrev pub or_next : Option Float → Option Float → Option Float
  or_next none next = next
  or_next (some v) next = some v

  -- The columns 6 to 8 are read, from column `i` on.
  unfoldable pub percent_in_fields : ℕ → List String → Option Float
  percent_in_fields i [] = none
  percent_in_fields i (field ∷ rest) =
      or_next (if leb 6 i && leb i 8 then percent_of (parse_float field) else none)
        (percent_in_fields (suc i) rest)

  unfoldable pub percent_in_lines : List String → Option Float
  percent_in_lines [] = none
  percent_in_lines (line ∷ rest) =
      or_next
        (if contains line "all" && not (contains line "CPU")
          then percent_in_fields 0 (fields line)
          else none)
        (percent_in_lines rest)

  abbrev pub or_zero : Option Float → Float
  or_zero none = of_uint 0
  or_zero (some v) = v

  -- The argument is the output of `mpstat 1 1`, or the error of running it.
  unfoldable pub get_softirq_percent : Result ℕ String → Float
  get_softirq_percent (err _) = of_uint 0
  get_softirq_percent (ok output) = or_zero (percent_in_lines (lines output))

  -- `avgSoftIRQ = (avgSoftIRQ*float64(samples-1) + si) / float64(samples)`
  abbrev pub next_avg : ℕ → Float → Float → Float
  next_avg samples avg si =
      floats.div (floats.add (floats.mul avg (of_uint (sub64 samples 1))) si) (of_uint samples)

  -- One tick of `monitorCPUSoftIRQ`, by the percentage that it reads.
  unfoldable pub monitor_tick : Float → Monitor Float → Monitor Float
  monitor_tick si m = record {
    peak = if gt si m.peak then si else m.peak;
    avg = next_avg (add64 m.samples 1) m.avg si;
    samples = add64 m.samples 1;
  }

  unfoldable pub monitor_ticks : List Float → Monitor Float → Monitor Float
  monitor_ticks [] m = m
  monitor_ticks (si ∷ sis) m = monitor_ticks sis (monitor_tick si m)

  -- The verdict of `printFinalStats`.
  unfoldable pub verdict : Monitor Float → Verdict
  verdict m =
      if floats.le (of_uint 50) m.peak
      then issue_replicated
      else if floats.le (of_uint 30) m.avg
      then partial_replication
      else not_replicated
