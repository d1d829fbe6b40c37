-- ===== src/Common/Bits.antt =====
-- `&` and `|` on the native numbers, digit by digit.
use Prim.Native.Nat.{
  ℕ, zero, suc, ◌+◌, ◌-◌, ◌*◌, ◌/◌, ◌%◌, ◌≤◌, ◌<◌, min, max, bit_and, bit_or, digits, bitwise,
  bit_and-bitwise, bit_or-bitwise,
}
use mathlib.Core.Path.{◌≡◌, refl, ap, ◌∙◌}
use native.Mathlib.Nat.{zero-add, suc-add}
use mathlib.Core.Bool.{Bool, true, ◌&&◌}
use native.Mathlib.Omega.{arith}
use net_perf_test.Common.Tests.{◌==◌}

module _ (z : ℕ → ℕ) (f : ℕ → ℕ → ℕ) where
  -- One unit of fuel more than the number itself has no effect.
  digits-suc : (n a b : ℕ) → a ≤ n → digits z f (suc n) a b ≡ digits z f n a b
  digits-suc zero zero b h = refl
  digits-suc (suc n) zero b h = refl
  digits-suc zero (suc a) b h = elim h [ ]
  digits-suc (suc n) (suc a) b h = rw (digits-suc n (suc a / 2) (b / 2) (omega arith))

  digits_enough : (k a b : ℕ) → digits z f (k + a) a b ≡ digits z f a a b
  digits_enough zero a b = rw (zero-add a) refl
  digits_enough (suc k) a b =
      rw (suc-add k a) (digits-suc (k + a) a b (omega arith) ∙ digits_enough k a b)

  -- A first number that is even: its lowest digit is 0, and `z` stands for the rest of a zero.
  bitwise_twice :
      (c a b : ℕ)
      → c ≡ a * 2
      → ((n : ℕ) → z n ≡ z (n / 2) * 2 + f 0 (n % 2))
      → bitwise z f c b ≡ bitwise z f a (b / 2) * 2 + f 0 (b % 2)
  bitwise_twice zero zero b e law = law b
  bitwise_twice zero (suc a) b e law = omega (arith, e)
  bitwise_twice (suc c) a b e law =
      let half : suc c / 2 ≡ a = omega arith in
      let even : suc c % 2 ≡ 0 = omega arith in
      let spare : c ≡ (c - a) + a = omega arith in
      rw (half, even)
        (ap (λ n. digits z f n a (b / 2) * 2 + f 0 (b % 2)) spare
          ∙ ap (λ n. n * 2 + f 0 (b % 2)) (digits_enough (c - a) a (b / 2)))

or_twice : (c a b : ℕ) → c ≡ a * 2 → bit_or c b ≡ bit_or a (b / 2) * 2 + b % 2
or_twice c a b e =
    simp bit_or-bitwise (bitwise_twice (λ d. d) max c a b e (λ n. omega arith) ∙ omega arith)

and_twice : (c a b : ℕ) → c ≡ a * 2 → bit_and c b ≡ bit_and a (b / 2) * 2
and_twice c a b e =
    simp bit_and-bitwise (bitwise_twice (λ d. 0) min c a b e (λ n. omega arith) ∙ omega arith)

-- A test of the numbers below a bound, one after the other.
abbrev holds_below : ℕ → (ℕ → Bool) → Bool
holds_below zero p = true
holds_below (suc n) p = p n && holds_below n p

holds_below_sound : (n x : ℕ) (p : ℕ → Bool) → holds_below n p ≡ true → x < n → p x ≡ true
holds_below_sound zero x p h lt = elim lt [ ]
holds_below_sound (suc n) x p h lt = ground (arith, holds_below_sound n x p)

bytes_or_zero : holds_below 256 (λ a. bit_or a 0 == a) ≡ true
bytes_or_zero = refl

bytes_and_ones : holds_below 256 (λ a. bit_and a 255 == a) ≡ true
bytes_and_ones = refl

==→eq : (a b : ℕ) → (a == b) ≡ true → a ≡ b
==→eq a b h = ground arith

-- Of two bytes the high one is kept by the mask 0xff00, and joined to the low one by `|`.
pub high_and : (a : ℕ) → a < 256 → bit_and (a * 256) 0xff00 ≡ a * 256
high_and a h =
    let ones : bit_and a 255 ≡ a =
      ==→eq (bit_and a 255) a
        (holds_below_sound 256 a (λ x. bit_and x 255 == x) bytes_and_ones h) in
    omega (
      arith,
      ones,
      and_twice (a * 256) (a * 128) 65280 (omega arith),
      and_twice (a * 128) (a * 64) 32640 (omega arith),
      and_twice (a * 64) (a * 32) 16320 (omega arith),
      and_twice (a * 32) (a * 16) 8160 (omega arith),
      and_twice (a * 16) (a * 8) 4080 (omega arith),
      and_twice (a * 8) (a * 4) 2040 (omega arith),
      and_twice (a * 4) (a * 2) 1020 (omega arith),
      and_twice (a * 2) (a) 510 (omega arith),
    )

pub high_or : (a b : ℕ) → a < 256 → b < 256 → bit_or (a * 256) b ≡ a * 256 + b
high_or a b h k =
    let zeros : bit_or a 0 ≡ a =
      ==→eq (bit_or a 0) a (holds_below_sound 256 a (λ x. bit_or x 0 == x) bytes_or_zero h) in
    let b1 = b / 2 in
    let b2 = b1 / 2 in
    let b3 = b2 / 2 in
    let b4 = b3 / 2 in
    let b5 = b4 / 2 in
    let b6 = b5 / 2 in
    let b7 = b6 / 2 in
    let last : b7 / 2 ≡ 0 = omega arith in
    omega (
      arith,
      ap (λ n. bit_or a n) last,
      zeros,
      or_twice (a * 256) (a * 128) b (omega arith),
      or_twice (a * 128) (a * 64) b1 (omega arith),
      or_twice (a * 64) (a * 32) b2 (omega arith),
      or_twice (a * 32) (a * 16) b3 (omega arith),
      or_twice (a * 16) (a * 8) b4 (omega arith),
      or_twice (a * 8) (a * 4) b5 (omega arith),
      or_twice (a * 4) (a * 2) b6 (omega arith),
      or_twice (a * 2) (a) b7 (omega arith),
    )
