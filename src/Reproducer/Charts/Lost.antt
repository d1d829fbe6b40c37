-- ===== src/Reproducer/Charts/Lost.antt =====
-- What `SaveCharts` of af_packet_reproducer/main.go does where a series is refused.
use net_perf_test.Common.{
  ℕ, suc, ◌+◌, ◌≤◌, ◌≡◌, refl, arith, false, String, Option, none, some, Option-cases, ◌⊎◌, inl,
  inr, List, ok, err, M, ◌>>=◌, ◌>>◌, length, ltb,
}
use net_perf_test.Common.Floats.{Floats}
use net_perf_test.Reproducer.Prometheus.Types.{MetricPoint, MetricsCollector, Panic, nil_line}
use net_perf_test.Reproducer.Charts.Types.{
  panicked, Plot, Line, Chart, Charts, saved, series, Plotter, DrawM, checked_line, unchecked_line,
  save_chart, line_of,
}
use net_perf_test.Reproducer.Charts.Plots.{
  plot_active_sockets, plot_cpu_usage, plot_memory_usage, plot_network_throughput,
}
use net_perf_test.Reproducer.Charts.Breakdowns.{max_sockets_from, normalized, plot_combined_metrics}
use net_perf_test.Reproducer.Charts.Saving.{
  logging, or_log, first_charts, later_charts, save_charts,
}

module _ (floats : Floats) (plotter : Plotter floats.Float) where
  open floats use {Float, of_uint, gt, div, mul}

  -- A drawing that does not panic, and tries at most one file.
  unfoldable IsMild : DrawM floats plotter (Unit {0}) → Type 0
  IsMild draw =
      (s : Charts Float)
      → (logging floats plotter (draw s).0 ≡ ok tt) × (length (draw s).1 ≤ 1 + length s)

  saved-mild :
      (chart : Chart Float) (o : Option ℕ) (s : Charts Float)
      → (logging floats plotter (saved floats plotter chart o s).0 ≡ ok tt)
        × (length (saved floats plotter chart o s).1 ≤ 1 + length s)
  saved-mild chart none s = (refl, omega arith)
  saved-mild chart (some e) s = (refl, omega arith)

  -- A step that does not panic, and tries at most `n` files.
  unfoldable Tries : ℕ → M (Charts Float) Panic (Unit {0}) → Type 0
  Tries n m = (s : Charts Float) → ((m s).0 ≡ ok tt) × (length (m s).1 ≤ n + length s)

  or_log-Tries :
      (draw : DrawM floats plotter (Unit {0})) → IsMild draw → Tries 1 (or_log floats plotter draw)
  unfolding IsMild Tries or_log
  or_log-Tries draw h = h

  then-Tries :
      (n : ℕ) (draw : DrawM floats plotter (Unit {0})) (m : M (Charts Float) Panic (Unit {0}))
      → IsMild draw
      → Tries n m
      → Tries (suc n) (or_log floats plotter draw >> m)
  unfolding Tries ◌>>=◌
  then-Tries n draw m h k s =
      let (e, l) = or_log-Tries draw h s in
      let (e1, l1) = k (or_log floats plotter draw s).1 in rw e (e1, omega arith)

  module _ (mc : MetricsCollector Float) where
    save_chart-IsMild :
        (name : String) (inches : ℕ × ℕ) (plot : Plot Float)
        → IsMild (save_chart floats plotter mc name inches plot)
    unfolding IsMild save_chart
    save_chart-IsMild name inches plot s = saved-mild _ (plotter.save s _) s

    checked_line-IsMild :
        (points : List (Float × Float)) (color width : ℕ)
        (f : Line Float → DrawM floats plotter (Unit {0}))
        → ((line : Line Float) → IsMild (f line))
        → IsMild (checked_line floats plotter points color width >>= f)
    unfolding IsMild checked_line ◌>>=◌
    checked_line-IsMild points color width f h s = elim (Option-cases (plotter.new_line points)) [
      | inl e ↦ rw e (h (line_of floats plotter points color width) s)
      | inr (n, e) ↦ rw e (refl, omega arith)
    ]

    first_charts-Tries : Tries 4 (first_charts floats plotter mc)
    unfolding first_charts plot_active_sockets plot_cpu_usage plot_memory_usage
        plot_network_throughput
    first_charts-Tries =
        let one : (points : List (Float × Float)) (color width : ℕ) (name : String) (inches : ℕ × ℕ)
              (plot : Line Float → Plot Float)
            → IsMild (
                checked_line floats plotter points color width >>= λ line.
                save_chart floats plotter mc name inches (plot line)) =
          λ points color width name inches plot.
            checked_line-IsMild points color width _
              (λ line. save_chart-IsMild name inches (plot line)) in
        then-Tries 3 _ _ (one _ _ _ _ _ _) (
          then-Tries 2 _ _ (one _ _ _ _ _ _) (
            then-Tries 1 _ _ (one _ _ _ _ _ _)
              (or_log-Tries _ (checked_line-IsMild _ _ _ _ (λ rx. one _ _ _ _ _ _)))))

  -- A drawing that panics on a line that is nil, with nothing tried.
  unfoldable Panics : DrawM floats plotter (Unit {0}) → Type 0
  Panics draw = (s : Charts Float) → draw s ≡ (err (panicked nil_line), s)

  refused_now :
      (points : List (Float × Float)) (color width e : ℕ)
      (f : Line Float → DrawM floats plotter (Unit {0}))
      → plotter.new_line points ≡ some e
      → Panics (unchecked_line floats plotter points color width >>= f)
  unfolding Panics unchecked_line ◌>>=◌
  refused_now points color width e f r s = rw r refl

  refused_later :
      (points : List (Float × Float)) (color width : ℕ)
      (f : Line Float → DrawM floats plotter (Unit {0}))
      → ((line : Line Float) → Panics (f line))
      → Panics (unchecked_line floats plotter points color width >>= f)
  unfolding Panics unchecked_line ◌>>=◌
  refused_later points color width f h s = elim (Option-cases (plotter.new_line points)) [
    | inl e ↦ rw e (h (line_of floats plotter points color width) s)
    | inr (n, e) ↦ rw e refl
  ]

  module _ (mc : MetricsCollector Float) where
    abbrev pub highest : Float
    highest = max_sockets_from floats plotter (of_uint 0) mc.points

    abbrev pub IsRefused : (MetricPoint Float → Float) → Type 0
    IsRefused field = (e : ℕ) × (plotter.new_line (series floats plotter mc field) ≡ some e)

    combined-Panics :
        IsRefused (normalized floats plotter highest)
          ⊎ (IsRefused (λ point. point.cpu_usage)
              ⊎ (IsRefused (λ point. point.cpu_soft_irq) ⊎ IsRefused (λ point. point.memory_usage)))
        → Panics (plot_combined_metrics floats plotter mc)
    unfolding plot_combined_metrics
    combined-Panics (inl (e, r)) = refused_now _ _ _ e _ r
    combined-Panics (inr (inl (e, r))) = refused_later _ _ _ _ (λ _. refused_now _ _ _ e _ r)
    combined-Panics (inr (inr (inl (e, r)))) =
        refused_later _ _ _ _ (λ _. refused_later _ _ _ _ (λ _. refused_now _ _ _ e _ r))
    combined-Panics (inr (inr (inr (e, r)))) =
        refused_later _ _ _ _
          (λ _. refused_later _ _ _ _ (λ _. refused_later _ _ _ _ (λ _. refused_now _ _ _ e _ r)))

    -- Where gonum/plot refuses one of the four series of the combined chart, SaveCharts panics at two
    -- samples or more, and has tried four files of its nine at most.
    pub save_charts-refused :
        (s : Charts Float)
        → 2 ≤ length mc.points
        → IsRefused (normalized floats plotter highest)
          ⊎ (IsRefused (λ point. point.cpu_usage)
              ⊎ (IsRefused (λ point. point.cpu_soft_irq) ⊎ IsRefused (λ point. point.memory_usage)))
        → let r = save_charts floats plotter mc s in
          (r.0 ≡ err nil_line) × (length r.1 ≤ 4 + length s)
    unfolding save_charts later_charts or_log Tries Panics ◌>>=◌
    save_charts-refused s h refused =
        let two : ltb (length mc.points) 2 ≡ false = ground arith in
        let (e, l) = first_charts-Tries mc s in
        let p = combined-Panics refused (first_charts floats plotter mc s).1 in
        rw (two, e, p) (refl, l)
