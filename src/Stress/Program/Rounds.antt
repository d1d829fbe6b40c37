-- ===== src/Stress/Program/Rounds.antt =====
-- How many rounds `perform_stress_loop` of ebpf-stress/bpf/stress.c goes through.
use net_perf_test.Common.{
  ℕ, zero, suc, ◌+◌, ◌-◌, ◌*◌, ◌/◌, ◌%◌, ◌≤◌, ◌≡◌, refl, sym, ap, ◌∙◌, arith, false, ltb, leb,
  if◌then◌else◌, Bool-cases, ◌⊎◌, inl, inr,
}
use net_perf_test.Stress.Program.Loop.{bounded_loop, loop_limits, nested_loops}

module _ {S : Type 0} where
  -- A plain loop: the body at `i`, and at the `n - 1` numbers behind it.
  unfoldable pub plain_loop : (n i : ℕ) → (ℕ → S → S) → S → S
  plain_loop zero i body s = s
  plain_loop (suc n) i body s = plain_loop n (i + 1) body (body i s)

  -- A bounded loop with a break is a plain loop to the smaller of its two ends.
  bounded_loop-eq :
      (left i n limit : ℕ) (body : ℕ → S → S) (s : S)
      → i + n ≡ limit
      → n ≤ left
      → bounded_loop left i limit body s ≡ plain_loop n i body s
  unfolding bounded_loop plain_loop
  bounded_loop-eq zero i zero limit body s e h = refl
  bounded_loop-eq zero i (suc n) limit body s e h = elim h [ ]
  bounded_loop-eq (suc left) i zero limit body s e h = ground arith
  bounded_loop-eq (suc left) i (suc n) limit body s e h =
      ground
        (arith, bounded_loop-eq left (i + 1) n limit body (body i s) (omega arith) (omega arith))

  plain_loop-append :
      (n m i j : ℕ) (body : ℕ → S → S) (s : S)
      → i + n ≡ j
      → plain_loop (n + m) i body s ≡ plain_loop m j body (plain_loop n i body s)
  unfolding plain_loop
  plain_loop-append zero m i j body s e =
      let e' : i ≡ j = omega arith in let z : zero + m ≡ m = omega arith in rw (z, e') refl
  plain_loop-append (suc n) m i j body s e =
      let z : suc n + m ≡ suc (n + m) = omega arith in
      rw z (plain_loop-append n m (i + 1) j body (body i s) (omega arith))

  plain_loop-cong :
      (n i : ℕ) (f g : ℕ → S → S) (s : S)
      → ((k : ℕ) (t : S) → f k t ≡ g k t)
      → plain_loop n i f s ≡ plain_loop n i g s
  unfolding plain_loop
  plain_loop-cong zero i f g s h = refl
  plain_loop-cong (suc n) i f g s h =
      plain_loop-cong n (i + 1) f g (f i s) h ∙ ap (plain_loop n (i + 1) g) (h i s)

  plain_loop-shift :
      (n i b j : ℕ) (body : ℕ → S → S) (s : S)
      → b + i ≡ j
      → plain_loop n i (λ k. body (b + k)) s ≡ plain_loop n j body s
  unfolding plain_loop
  plain_loop-shift zero i b j body s e = refl
  plain_loop-shift (suc n) i b j body s e =
      plain_loop-shift n (i + 1) b (j + 1) body (body (b + i) s) (omega arith)
      ∙ ap (λ k. plain_loop n (j + 1) body (body k s)) e

  -- Rows of one width, one after the other, are one loop.
  plain_loop-rows :
      (w n o : ℕ) (body : ℕ → S → S) (s : S)
      → plain_loop n o (λ outer t. plain_loop w 0 (λ inner. body (outer * w + inner)) t) s
        ≡ plain_loop (n * w) (o * w) body s
  unfolding plain_loop
  plain_loop-rows w zero o body s = let none : zero * w ≡ 0 = omega arith in rw none refl
  plain_loop-rows w (suc n) o body s =
      let row : (o + 1) * w ≡ o * w + w = grind arith in
      let all : suc n * w ≡ w + n * w = grind arith in
      plain_loop-rows w n (o + 1) body _
      ∙ ap (plain_loop (n * w) ((o + 1) * w) body)
          (plain_loop-shift w 0 (o * w) (o * w) body s (omega arith))
      ∙ sym (
          ap (λ k. plain_loop k (o * w) body s) all
          ∙ plain_loop-append w (n * w) (o * w) ((o + 1) * w) body s (sym row))

  -- The nested loops of `outer` rows of `inner` rounds, within their bounds.
  rows-eq :
      (outer inner : ℕ) (body : ℕ → S → S) (s : S)
      → outer ≤ 50
      → inner ≤ 50
      → bounded_loop 50 0 outer (λ o t. bounded_loop 50 0 inner (λ i u. body (o * 50 + i) u) t) s
        ≡ plain_loop outer 0 (λ o t. plain_loop inner 0 (λ i. body (o * 50 + i)) t) s
  rows-eq outer inner body s h k =
      bounded_loop-eq 50 0 outer outer _ s (omega arith) h
      ∙ plain_loop-cong outer 0 _ _ s
          (λ o t. bounded_loop-eq 50 0 inner inner (λ i. body (o * 50 + i)) t (omega arith) k)

-- The rounds that are gone through for a target: a target of fifty or more is rounded down to rows
-- of fifty, and there are fifty rows at most.
abbrev pub rounds_of : ℕ → ℕ
rounds_of target =
    if leb 2500 target then 2500 else if leb 50 target then target - target % 50 else target

-- The limits of a target: whole rows, or one row that is shorter.
abbrev Limits : ℕ → ℕ × ℕ → Type 0
Limits target (o, i) = (o ≤ 50) × (i ≤ 50) × ((i ≡ 50) ⊎ (o ≡ 1)) × (o * i ≡ rounds_of target)

loop_limits-Limits : (target : ℕ) → Limits target (loop_limits target)
unfolding loop_limits
loop_limits-Limits target = elim (Bool-cases (leb 2500 target)) [
  | inl p ↦ rw p (omega arith, omega arith, inl refl, omega arith)
  | inr p ↦ elim (Bool-cases (leb 50 target)) [
    | inl q ↦
        let below : ltb 50 (target / 50) ≡ false = ground arith in
        rw (p, q, below) (ground arith, omega arith, inl refl, omega arith)
    | inr q ↦
        let below : ltb 50 target ≡ false = ground arith in
        rw (p, q, below) (omega arith, ground arith, inr refl, omega arith)
  ]
]

module _ {S : Type 0} where
  rows_joined :
      (o i : ℕ) (body : ℕ → S → S) (s : S)
      → (i ≡ 50) ⊎ (o ≡ 1)
      → plain_loop o 0 (λ r t. plain_loop i 0 (λ k. body (r * 50 + k)) t) s
        ≡ plain_loop (o * i) 0 body s
  unfolding plain_loop
  rows_joined o i body s (inl e) = rw e (plain_loop-rows 50 o 0 body s)
  rows_joined o i body s (inr e) =
      let one : 1 * i ≡ i = omega arith in rw (e, one) (plain_loop-shift i 0 0 0 body s refl)

  -- Whatever the body does, the nested loops with their limits and bounds are one loop over the
  -- numbers below `rounds_of target`.
  pub nested_loops-eq :
      (body : ℕ → S → S) (target : ℕ) (s : S)
      → nested_loops body target s ≡ plain_loop (rounds_of target) 0 body s
  unfolding nested_loops
  nested_loops-eq body target s =
      let (o, i) = loop_limits target in
      let (few, short, whole, e) = loop_limits-Limits target in
      rows-eq o i body s few short
      ∙ rows_joined o i body s whole
      ∙ ap (λ n. plain_loop n 0 body s) e
