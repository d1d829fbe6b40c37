-- ===== src/Reproducer/Runs/Creation.antt =====
-- The loop of af_packet_reproducer/main.go that creates the sockets.
use mathlib.Core.List.{append_assoc, append-nil}
use net_perf_test.Common.{
  ℕ, zero, suc, ◌+◌, ◌%◌, ◌≤◌, ◌≡◌, refl, sym, ap, ◌∙◌, arith, Bool-cases, Option, none, some,
  Option-cases, inl, inr, List, [], ◌∷◌, ◌++◌, ok, ◌>>=◌, length, length-append, ◌<>◌, All,
  All-append, ◌==◌, if◌then◌else◌,
}
use net_perf_test.Common.Floats.{Floats}
use net_perf_test.Reproducer.Captures.{Capture}
use net_perf_test.Reproducer.Prometheus.Types.{Config}
use net_perf_test.Reproducer.Prometheus.Request.{api_url}
use net_perf_test.Reproducer.Prometheus.Sampling.{Run}
use net_perf_test.Reproducer.Prometheus.Asked.{Paired}
use net_perf_test.Reproducer.Monitoring.{Options, Host, start_tcpdump, sample, create_sockets}
use net_perf_test.Reproducer.Samples.{IsQuiet, sample-IsSampled}

module _ (floats : Floats) (host : Host floats.Float) (options : Options) where
  open floats use {Float}
  open host use {web}

  abbrev pub with_capture : Option Capture → List Capture → List Capture
  with_capture none captures = captures
  with_capture (some capture) captures = capture ∷ captures

  -- The captures of the `left` processes from `i` on that start.
  abbrev pub started : ℕ → ℕ → List Capture
  started zero i = []
  started (suc left) i = with_capture (start_tcpdump floats host options i) (started left (suc i))

  abbrev pub one_if_tenth : ℕ → Option Capture → ℕ
  one_if_tenth i none = 0
  one_if_tenth i (some _) = if i % 10 == 0 then 1 else 0

  -- How many of them have a number that ten divides.
  abbrev pub tenths : ℕ → ℕ → ℕ
  tenths zero i = 0
  tenths (suc left) i = one_if_tenth i (start_tcpdump floats host options i) + tenths left (suc i)

  abbrev pub Bounded : ℕ → Run Float → Type 0
  Bounded n s = All (λ point. point.active_sockets ≤ n) s.collector.points

  -- From the one state to the other, `n` samples were taken that count no more than `c` active
  -- sockets, and no process was stopped.
  pub record IsSampledBy (c n : ℕ) (s t : Run Float) : Type 0 where
    pub added : length t.collector.points ≡ length s.collector.points + n
    pub bounded : Bounded c s → Bounded c t
    pub quiet : IsQuiet s.signals t.signals
    pub url : t.collector.prometheus_url ≡ s.collector.prometheus_url

  nothing-IsSampledBy : (c : ℕ) (s : Run Float) → IsSampledBy c 0 s s
  nothing-IsSampledBy c s = record {
    added = omega arith;
    bounded = λ b. b;
    quiet = λ p. (refl, refl);
    url = refl;
  }

  then-IsSampledBy :
      (c m n : ℕ) (s t u : Run Float)
      → IsSampledBy c m s t
      → IsSampledBy c n t u
      → IsSampledBy c (m + n) s u
  then-IsSampledBy c m n s t u a b = record {
    added = omega (arith, a.added, b.added);
    bounded = λ x. b.bounded (a.bounded x);
    quiet = λ p. ((b.quiet p).0 ∙ (a.quiet p).0, (b.quiet p).1 ∙ (a.quiet p).1);
    url = b.url ∙ a.url;
  }

  module _ (config : Config) (paired : Paired floats web) where
    pub sample-IsSampledBy :
        (c : ℕ) (captures : List Capture) (s : Run Float)
        → web.new_request (api_url floats web s.collector) ≡ none
        → length captures ≤ c
        → let r = sample floats host options config captures s in
          (r.0 ≡ ok tt) × IsSampledBy c 1 s r.1
    sample-IsSampledBy c captures s made h =
        let (e, sampled) = sample-IsSampled floats host options config captures s paired made in
        (
          e,
          record {
            added =
                ap (λ m. length m.points) sampled.added
                ∙ length-append s.collector.points (sampled.point ∷ []);
            bounded = λ b. rw sampled.added (
                All-append (λ point. point.active_sockets ≤ c) s.collector.points
                  (sampled.point ∷ []) b (omega (arith, sampled.active_le), tt));
            quiet = sampled.quiet;
            url = ap (λ m. m.prometheus_url) sampled.added;
          },
        )

    -- What the creation of `left` sockets from `i` on gives, behind `captures`.
    abbrev pub Created : ℕ → ℕ → ℕ → List Capture → Run Float → Type 0
    Created c left i captures s =
        let r = create_sockets floats host options config left i captures s in
        (r.0 ≡ ok (captures ++ started left i)) × IsSampledBy c (tenths left i) s r.1

    create_started :
        (c left i : ℕ) (captures : List Capture) (s : Run Float) (capture : Capture)
        → web.new_request (api_url floats web s.collector) ≡ none
        → length captures + 1 ≤ c
        → ((t : Run Float)
            → web.new_request (api_url floats web t.collector) ≡ none
            → Created c left (suc i) (captures ++ capture ∷ []) t)
        → start_tcpdump floats host options i ≡ some capture
        → Created c (suc left) i captures s
    unfolding create_sockets ◌>>=◌
    create_started c left i captures s capture made h next e = elim (Bool-cases (i % 10 == 0)) [
      | inl tenth ↦
          let more = captures ++ capture ∷ [] in
          let (e1, one) =
            sample-IsSampledBy c more s made (rw (length-append captures (capture ∷ [])) h) in
          let t = (sample floats host options config more s).1 in
          let (e2, rest) =
            next t (ap (λ url. web.new_request (url <> "/api/v1/query")) one.url ∙ made) in
          rw (e, tenth, e1)
            (
              e2 ∙ ap ok (append_assoc captures (capture ∷ []) (started left (suc i))),
              then-IsSampledBy c 1 (tenths left (suc i)) s t _ one rest,
            )
      | inr other ↦
          let (e2, rest) = next s made in
          rw (e, other)
            (
              e2 ∙ ap ok (append_assoc captures (capture ∷ []) (started left (suc i))),
              then-IsSampledBy c 0 (tenths left (suc i)) s s _ (nothing-IsSampledBy c s) rest,
            )
    ]

    pub create_sockets-Created :
        (c left i : ℕ) (captures : List Capture) (s : Run Float)
        → web.new_request (api_url floats web s.collector) ≡ none
        → length captures + length (started left i) ≤ c
        → Created c left i captures s
    unfolding create_sockets
    create_sockets-Created c zero i captures s made h =
        (ap ok (sym (append-nil captures)), nothing-IsSampledBy c s)
    create_sockets-Created c (suc left) i captures s made h =
        elim (Option-cases (start_tcpdump floats host options i)) [
          | inl e ↦
              let enough : length captures + length (started left (suc i)) ≤ c = rw e at h in
              let (e1, rest) = create_sockets-Created c left (suc i) captures s made enough in
              rw e (
                e1,
                then-IsSampledBy c 0 (tenths left (suc i)) s s _ (nothing-IsSampledBy c s) rest,
              )
          | inr (capture, e) ↦
              let enough : length captures + suc (length (started left (suc i))) ≤ c = rw e at h in
              create_started c left i captures s capture made (omega arith)
                (λ t made1.
                  create_sockets-Created c left (suc i) (captures ++ capture ∷ []) t made1
                    (rw (length-append captures (capture ∷ [])) (omega arith)))
                e
        ]
