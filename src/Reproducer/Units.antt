-- ===== src/Reproducer/Units.antt =====
-- The unit that `formatBytes` of af_packet_reproducer/main.go chooses.
use native.Mathlib.Nat.{pow-suc, div-div-eq-div-mul, le-div_iff_mul-le, div-lt_iff_lt-mul}
use net_perf_test.Common.{
  ℕ, zero, suc, ◌+◌, ◌*◌, ◌/◌, ◌^◌, ◌≤◌, ◌<◌, ◌≡◌, refl, sym, ap, ◌∙◌, arith, some, ltb, leb, true,
  false, Bool-cases, inl, inr,
}
use net_perf_test.Common.Ints.{pos}
use net_perf_test.Reproducer.Sizes.{unit, scaled, finished, scale, format_bytes}

-- The largest power of 1024 that is not above the size, by its exponent.
pub record IsUnit (bytes div exp : ℕ) : Type 0 where
  pub power : div ≡ unit ^ (exp + 1)
  pub below : div ≤ bytes
  pub above : bytes < div * unit

leb→le : (a b : ℕ) → leb a b ≡ true → a ≤ b
leb→le a b h = ground arith

leb→lt : (a b : ℕ) → leb a b ≡ false → b < a
leb→lt a b h = ground arith

power_up : (div k : ℕ) → div ≡ unit ^ k → div * unit ≡ unit ^ (k + 1)
power_up div k p =
    let next : suc k ≡ k + 1 = omega arith in
    ap (λ d. d * unit) p ∙ sym (pow-suc unit k) ∙ ap (λ j. unit ^ j) next

scale-IsUnit :
    (fuel n div exp bytes : ℕ)
    → n ≡ bytes / div
    → div ≡ unit ^ (exp + 1)
    → 0 < div
    → div ≤ bytes
    → n < unit ^ fuel
    → (d e : ℕ) × (scale fuel n div exp ≡ some (d, e)) × IsUnit bytes d e × (e < exp + fuel)
unfolding scale
scale-IsUnit zero n div exp bytes q p pd b f =
    let one : 1 ≤ bytes / div = (le-div_iff_mul-le pd).1 (omega arith) in absurd (omega arith)
scale-IsUnit (suc fuel) n div exp bytes q p pd b f = elim (Bool-cases (leb unit n)) [
  | inl h ↦
      let le : unit * div ≤ bytes = (le-div_iff_mul-le pd).0 (omega (arith, leb→le unit n h)) in
      let smaller : n / unit < unit ^ fuel =
        (div-lt_iff_lt-mul (omega arith)).1 (omega (arith, f, pow-suc unit fuel)) in
      let same : n / unit ≡ bytes / (div * unit) =
        ap (λ k. k / unit) q ∙ div-div-eq-div-mul bytes div unit in
      let power : div * unit ≡ unit ^ (exp + 1 + 1) = power_up div (exp + 1) p in
      let (d, e, r, u, l) =
        scale-IsUnit fuel (n / unit) (div * unit) (exp + 1) bytes same power (omega arith)
          (omega arith) smaller in
      (d, e, rw h r, u, omega arith)
  | inr h ↦
      let above : bytes < unit * div =
        (div-lt_iff_lt-mul pd).0 (omega (arith, q, leb→lt unit n h)) in
      (div, exp, rw h refl, record { power = p; below = b; above = omega arith }, omega arith)
]

-- For an int64 of at least 1024, six rounds of fuel are enough: the size is divided by the largest
-- power of 1024 that is not above it, and the index of its letter is below 6, the number of
-- letters.
pub format_bytes-IsUnit :
    (bytes : ℕ)
    → unit ≤ bytes
    → bytes < 2 ^ 63
    → (div exp : ℕ) × (format_bytes 6 (pos bytes) ≡ some (scaled bytes div exp))
      × IsUnit bytes div exp
      × (exp < 6)
unfolding format_bytes
format_bytes-IsUnit bytes lo hi =
    let small : bytes / unit < unit ^ 6 = (div-lt_iff_lt-mul (omega arith)).1 (omega arith) in
    let (d, e, r, u, l) =
      scale-IsUnit 6 (bytes / unit) unit 0 bytes refl refl (omega arith) lo small in
    let big : ltb bytes unit ≡ false = ground arith in (d, e, rw big (ap (finished bytes) r), u, l)
