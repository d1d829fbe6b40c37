-- ===== src/Reproducer/Charts/Types.antt =====
-- The charts that af_packet_reproducer/main.go draws from its samples, as data, and what
-- gonum/plot does with them.
use net_perf_test.Common.{
  ℕ, ◌-◌, String, Bool, false, Option, none, some, List, ◌∷◌, map, ok, err, M, pure, throw, ◌<>◌,
}
use net_perf_test.Common.Floats.{Floats}
use net_perf_test.Reproducer.Prometheus.Types.{MetricPoint, MetricsCollector, Panic, nil_line}

-- An entry of a legend; `sockets_max` is "Sockets (max=%d)" of the number cut to an int.
pub data Label (F : Type 0) : Type 0 where
  plain : String → Label F
  sockets_max : F → Label F

-- A line by its points, its colour and its width.
pub record Line (F : Type 0) : Type 0 where
  pub points : List (F × F)
  pub color : ℕ
  pub width : ℕ
  pub dashed : Bool

-- The label of the X axis is "Time (seconds)", and the legend is at the top.
pub record Plot (F : Type 0) : Type 0 where
  pub title : String
  pub y_label : String
  pub lines : List (Label F × Line F)

-- A file with its plot, of so many inches.
pub record Chart (F : Type 0) : Type 0 where
  pub filename : String
  pub plot : Plot F
  pub inches : ℕ × ℕ

-- The attempts to write a file, with their errors, the newest first.
abbrev pub Charts : Type 0 → Type 0
Charts F = List (Chart F × Option ℕ)

-- A drawing ends early by an error of gonum/plot, or by a panic.
pub data Stop : Type 0 where
  failed : ℕ → Stop
  panicked : Panic → Stop

-- The errors of `plotter.NewLine` and of `Save`.
pub record Plotter (F : Type 0) : Type 0 where
  pub new_line : List (F × F) → Option ℕ
  pub save : Charts F → Chart F → Option ℕ

module _ (floats : Floats) (plotter : Plotter floats.Float) where
  open floats use {Float, seconds}

  abbrev pub DrawM : Type 0 → Type 0
  DrawM A = M (Charts Float) Stop A

  -- The samples are not older than the start.
  abbrev pub elapsed : MetricsCollector Float → MetricPoint Float → Float
  elapsed mc point = seconds (point.timestamp - mc.start_time)

  abbrev pub series : MetricsCollector Float → (MetricPoint Float → Float) → List (Float × Float)
  series mc field = map (λ point. (elapsed mc point, field point)) mc.points

  abbrev pub line_of : List (Float × Float) → ℕ → ℕ → Line Float
  line_of points color width = record {
    points = points;
    color = color;
    width = width;
    dashed = false;
  }

  abbrev pub line_or : Stop → Option ℕ → Line Float → DrawM (Line Float)
  line_or stop none line = pure line
  line_or stop (some _) line = throw stop

  abbrev pub line_or_error : Option ℕ → Line Float → DrawM (Line Float)
  line_or_error none line = pure line
  line_or_error (some e) line = throw (failed e)

  -- `plotter.NewLine`, with its error returned
  unfoldable pub checked_line : List (Float × Float) → ℕ → ℕ → DrawM (Line Float)
  checked_line points color width =
      line_or_error (plotter.new_line points) (line_of points color width)

  -- `plotter.NewLine`, with its error dropped: the line is nil then, and its colour is set.
  unfoldable pub unchecked_line : List (Float × Float) → ℕ → ℕ → DrawM (Line Float)
  unchecked_line points color width =
      line_or (panicked nil_line) (plotter.new_line points) (line_of points color width)

  abbrev pub saved : Chart Float → Option ℕ → DrawM (Unit {0})
  saved chart none s = (ok tt, (chart, none) ∷ s)
  saved chart (some e) s = (err (failed e), (chart, some e) ∷ s)

  unfoldable pub save_chart :
      MetricsCollector Float → String → ℕ × ℕ → Plot Float → DrawM (Unit {0})
  save_chart mc name inches plot s =
      let chart : Chart Float = record {
        filename = mc.output_dir <> "/" <> name;
        plot = plot;
        inches = inches;
      } in
      saved chart (plotter.save s chart) s
