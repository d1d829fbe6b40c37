-- ===== src/Traffic/Ends.antt =====
-- How a run of traffic-generator/cmd/traffic-gen/main.go ends, and that it can.
use net_perf_test.Common.{
  ℕ, zero, suc, ◌≡◌, refl, ap, ◌∙◌, Bool, true, false, List, [], ◌∷◌, ◌++◌, All,
}
use net_perf_test.Common.Floats.{Floats}
use net_perf_test.Traffic.Workers.{
  Worker, at_select, finished, writing, wrote, counted, System, with_workers, Step, close_stop,
  see_stop, end_burst, write_fails, add_packet, add_bytes, Reach, later,
}
use net_perf_test.Traffic.Reports.{FinalStats}
use net_perf_test.Traffic.Command.{Options, ended, dials, panics, batch, Ends, completes}

-- The steps from one state to another.
pub data Later (n : ℕ) : System → System → Type 0 where
  here : (s : System) → Later n s s
  onward : (s t u : System) → Step n s t → Later n t u → Later n s u

Later-trans : (n : ℕ) (s t u : System) → Later n s t → Later n t u → Later n s u
Later-trans n _ _ u (here s) q = q
Later-trans n _ _ u (onward s t v step p) q = onward s t u step (Later-trans n t v u p q)

Reach-Later : (n : ℕ) (ds : List Bool) (s t : System) → Reach n ds s → Later n s t → Reach n ds t
Reach-Later n ds _ _ r (here s) = r
Reach-Later n ds _ _ r (onward s t u step p) = Reach-Later n ds t u (later s t r step) p

-- The worker at a place can end, and the others stay where they are.
abbrev CanFinish : ℕ → System → List Worker → List Worker → Type 0
CanFinish n s before behind =
    (t : System) × Later n s t × (t.stopped ≡ true) × (t.workers ≡ before ++ finished ∷ behind)

module _ (n : ℕ) (before behind : List Worker) where
  after_step :
      (s t : System) → Step n s t → CanFinish n t before behind → CanFinish n s before behind
  after_step s t step (u, p, stop, e) = (u, onward s t u step p, stop, e)

  finish_select :
      (s : System)
      → s.stopped ≡ true
      → s.workers ≡ before ++ at_select ∷ behind
      → CanFinish n s before behind
  finish_select s stop e = after_step s _ (see_stop before behind stop e) (_, here _, stop, refl)

  finish_writing :
      (left : ℕ) (s : System)
      → s.stopped ≡ true
      → s.workers ≡ before ++ writing left ∷ behind
      → CanFinish n s before behind
  finish_writing zero s stop e =
      after_step s _ (end_burst before behind e)
        (finish_select (with_workers before behind at_select s) stop refl)
  finish_writing (suc left) s stop e =
      after_step s _ (write_fails before behind left e)
        (finish_writing left (with_workers before behind (writing left) s) stop refl)

  finish_counted :
      (b left : ℕ) (s : System)
      → s.stopped ≡ true
      → s.workers ≡ before ++ counted b left ∷ behind
      → CanFinish n s before behind
  finish_counted b left s stop e =
      after_step s _ (add_bytes before behind left b e) (finish_writing left _ stop refl)

  finish_worker :
      (w : Worker) (s : System)
      → s.stopped ≡ true
      → s.workers ≡ before ++ w ∷ behind
      → CanFinish n s before behind
  finish_worker at_select s stop e = finish_select s stop e
  finish_worker finished s stop e = (s, here s, stop, e)
  finish_worker (writing left) s stop e = finish_writing left s stop e
  finish_worker (wrote b left) s stop e =
      after_step s _ (add_packet before behind left b e) (finish_counted b left _ stop refl)
  finish_worker (counted b left) s stop e = finish_counted b left s stop e

append_one :
    (xs : List Worker) (y : Worker) (ys : List Worker) → xs ++ y ∷ ys ≡ (xs ++ y ∷ []) ++ ys
append_one [] y ys = refl
append_one (x ∷ xs) y ys = ap (λ l. x ∷ l) (append_one xs y ys)

All-append : (P : Worker → Type 0) (xs ys : List Worker) → All P xs → All P ys → All P (xs ++ ys)
All-append P [] ys h k = k
All-append P (x ∷ xs) ys (p, h) k = (p, All-append P xs ys h k)

abbrev IsFinished : Worker → Type 0
IsFinished w = w ≡ finished

-- With the stop channel closed, the workers at and behind a place can all end.
finish_workers :
    (n : ℕ) (behind before : List Worker) (s : System)
    → s.stopped ≡ true
    → s.workers ≡ before ++ behind
    → All IsFinished before
    → (t : System) × Later n s t × (t.stopped ≡ true) × All IsFinished t.workers
finish_workers n [] before s stop e h =
    (s, here s, stop, rw e (All-append IsFinished before [] h tt))
finish_workers n (w ∷ behind) before s stop e h =
    let (t, p, stopped, q) = finish_worker n before behind w s stop e in
    let (u, r, still, k) =
      finish_workers n behind (before ++ finished ∷ []) t stopped
        (q ∙ append_one before finished behind)
        (All-append IsFinished before (finished ∷ []) h (refl, tt)) in
    (u, Later-trans n s t u p r, still, k)

module _ (floats : Floats) (o : Options) (num_cpu : ℕ) (dial : ℕ → Bool) (start_time : ℕ) where
  -- Where no goroutine panics, a run can end from wherever it has come to: the stop closes, and
  -- each worker finishes its burst and sees it, so that no worker is left to wait for.
  pub main-can_end :
      (t : System)
      → panics floats o num_cpu dial start_time ≡ false
      → Reach (batch floats o num_cpu dial start_time) (dials floats o num_cpu dial start_time) t
      → (s : System) × (stats : FinalStats floats.Float) × Later
          (batch floats o num_cpu dial start_time)
          t
          s
        × Ends floats o num_cpu dial start_time (ended s stats)
  main-can_end t calm r =
      let closed = record t { stopped = true } in
      let (s, p, stop, all) = finish_workers _ closed.workers [] closed refl refl tt in
      let path = onward t closed s close_stop p in
      (s, _, path, completes s start_time calm (Reach-Later _ _ t s r path) stop all)
