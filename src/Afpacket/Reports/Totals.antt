-- ===== src/Afpacket/Reports/Totals.antt =====
-- What the reports of afpacket-stress add up to.
use net_perf_test.Common.{ℕ, ◌≡◌, refl, ap, ◌∙◌, List, [], ◌∷◌, map, sum}
use net_perf_test.Common.Words.{sub64}
use net_perf_test.Common.Floats.{Floats}
use net_perf_test.Traffic.Increases.{Grows, differences, last_of, sum-differences}
use net_perf_test.Afpacket.Reports.{Reading, Last, last_of_reading, report_stats_from, report_stats}

module _ (floats : Floats) where
  open floats use {Float}

  sent-eq :
      (last : Last) (readings : List (Reading Float))
      → map (λ r. r.sent_increase) (report_stats_from floats last readings)
        ≡ differences last.packets_sent (map (λ r. r.packets_sent) readings)
  unfolding report_stats_from
  sent-eq last [] = refl
  sent-eq last (reading ∷ readings) =
      ap (λ rest. sub64 reading.packets_sent last.packets_sent ∷ rest)
        (sent-eq (last_of_reading floats reading) readings)

  recv-eq :
      (last : Last) (readings : List (Reading Float))
      → map (λ r. r.recv_increase) (report_stats_from floats last readings)
        ≡ differences last.packets_recv (map (λ r. r.packets_recv) readings)
  unfolding report_stats_from
  recv-eq last [] = refl
  recv-eq last (reading ∷ readings) =
      ap (λ rest. sub64 reading.packets_recv last.packets_recv ∷ rest)
        (recv-eq (last_of_reading floats reading) readings)

  -- The increases that the reports of a run give for the packets sent add up to the last reading of
  -- that counter, and those for the packets received to the last of theirs, where the readings do not
  -- shrink and fit a uint64.
  pub reports-increases :
      (begun : ℕ) (readings : List (Reading Float))
      → Grows 0 (map (λ r. r.packets_sent) readings)
      → Grows 0 (map (λ r. r.packets_recv) readings)
      → let reports = report_stats floats begun readings in
        (sum (map (λ r. r.sent_increase) reports) ≡ last_of 0 (map (λ r. r.packets_sent) readings))
        × (sum (map (λ r. r.recv_increase) reports)
            ≡ last_of 0 (map (λ r. r.packets_recv) readings))
  unfolding report_stats
  reports-increases begun readings h k =
      let first : Last = record { packets_sent = 0; packets_recv = 0; time = begun } in
      (
        ap sum (sent-eq first readings) ∙ sum-differences (map (λ r. r.packets_sent) readings) h,
        ap sum (recv-eq first readings) ∙ sum-differences (map (λ r. r.packets_recv) readings) k,
      )
