-- ===== src/Reproducer/Stopping.antt =====
-- Which processes `cleanupCaptures` of af_packet_reproducer/main.go signals.
use net_perf_test.Common.{
  ℕ, ◌+◌, ◌≡◌, refl, arith, Bool, true, false, none, some, Option-cases, inl, inr, List, [], ◌∷◌,
  Result, ok, count_by, ◌==◌,
}
use net_perf_test.Reproducer.Captures.{
  Capture, Call, probe, terminate, kill, Event, Trace, called, succeeded, signal_each,
  cleanup_captures,
}

abbrev pub is_kill_of : ℕ → Event → Bool
is_kill_of p (kill q, _) = p == q
is_kill_of p _ = false

abbrev pub is_terminate_of : ℕ → Event → Bool
is_terminate_of p (terminate q, _) = p == q
is_terminate_of p _ = false

abbrev pub is_terminated : Event → Bool
is_terminated (terminate _, ok _) = true
is_terminated _ = false

abbrev pub has_process : ℕ → Capture → Bool
has_process p capture = elim capture.process [ none ↦ false | some q ↦ p == q ]

module _ (answer : Trace → Call → Result ℕ ℕ) where
  terminate_counts :
      (captures : List Capture) (n : ℕ) (t : Trace) (p : ℕ)
      → let r = signal_each answer terminate captures n t in
        (count_by (is_terminate_of p) r.1
          ≡ count_by (is_terminate_of p) t + count_by (has_process p) captures)
        × (count_by (is_kill_of p) r.1 ≡ count_by (is_kill_of p) t)
        × (r.0 + count_by is_terminated t ≡ n + count_by is_terminated r.1)
  unfolding signal_each
  terminate_counts [] n t p = (omega arith, refl, omega arith)
  terminate_counts (capture ∷ captures) n t p = elim (Option-cases capture.process) [
    | inl e ↦ rw e (terminate_counts captures n t p)
    | inr (q, e) ↦ ground (
      arith,
      terminate_counts captures (succeeded answer (answer t (terminate q)) n)
          (called answer (terminate q) t) p,
    )
  ]

  kill_counts :
      (captures : List Capture) (n : ℕ) (t : Trace) (p : ℕ)
      → let r = signal_each answer kill captures n t in
        (count_by (is_kill_of p) r.1
          ≡ count_by (is_kill_of p) t + count_by (has_process p) captures)
        × (count_by (is_terminate_of p) r.1 ≡ count_by (is_terminate_of p) t)
        × (count_by is_terminated r.1 ≡ count_by is_terminated t)
  unfolding signal_each
  kill_counts [] n t p = (omega arith, refl, refl)
  kill_counts (capture ∷ captures) n t p = elim (Option-cases capture.process) [
    | inl e ↦ rw e (kill_counts captures n t p)
    | inr (q, e) ↦ ground (
      arith,
      kill_counts captures (succeeded answer (answer t (kill q)) n) (called answer (kill q) t) p,
    )
  ]

  -- Asking whether a process is there stops none.
  pub probe_counts :
      (captures : List Capture) (n : ℕ) (t : Trace) (p : ℕ)
      → let r = signal_each answer probe captures n t in
        (count_by (is_kill_of p) r.1 ≡ count_by (is_kill_of p) t)
        × (count_by (is_terminate_of p) r.1 ≡ count_by (is_terminate_of p) t)
  unfolding signal_each
  probe_counts [] n t p = (refl, refl)
  probe_counts (capture ∷ captures) n t p = elim (Option-cases capture.process) [
    | inl e ↦ rw e (probe_counts captures n t p)
    | inr (q, e) ↦ ground (
      arith,
      probe_counts captures (succeeded answer (answer t (probe q)) n) (called answer (probe q) t) p,
    )
  ]

  -- `cleanupCaptures` sends each process the signal to terminate and the signal to kill, each once
  -- for every capture that has it, whatever the answers; it reports as stopped the number of
  -- signals to terminate that worked.
  pub cleanup_captures_signals :
      (captures : List Capture) (t : Trace) (p : ℕ)
      → let r = cleanup_captures answer captures t in
        (count_by (is_terminate_of p) r.1
          ≡ count_by (is_terminate_of p) t + count_by (has_process p) captures)
        × (count_by (is_kill_of p) r.1
            ≡ count_by (is_kill_of p) t + count_by (has_process p) captures)
        × (r.0 + count_by is_terminated t ≡ count_by is_terminated r.1)
  unfolding cleanup_captures
  cleanup_captures_signals captures t p =
      let u : Trace = (signal_each answer terminate captures 0 t).1 in
      ground (arith, terminate_counts captures 0 t p, kill_counts captures 0 u p)
