-- ===== src/Afpacket/Batches.antt =====
-- How `progressiveSocketCreation` of traffic-generator/cmd/afpacket-stress/main.go goes through
-- the sockets.
use net_perf_test.Common.{
  ℕ, zero, suc, ◌+◌, ◌-◌, ◌≤◌, ◌<◌, ◌≡◌, refl, sym, ap, ◌∙◌, arith, Bool, true, false, none, some,
  ltb, if◌then◌else◌, ltb→lt, ltb→le,
}
use native.Mathlib.Nat.{zero-add, suc-add, add-zero, add-suc, sub-zero}
use net_perf_test.Afpacket.Progressive.{
  Ending, returned, blocked, at_wait, all_created, create_batch, create_at_once, progressive,
  progressive_socket_creation,
}

-- The batch of a round is not empty while sockets are missing, and does not exceed them.
unfoldable pub batch_size : (remaining batch : ℕ) → ℕ
batch_size remaining batch = if ltb remaining batch then remaining else batch

pub batch_size_bounds :
    (remaining batch : ℕ)
    → 0 < remaining
    → 0 < batch
    → (0 < batch_size remaining batch) × (batch_size remaining batch ≤ remaining)
unfolding batch_size
batch_size_bounds remaining batch h k = ground arith

-- A round whose polls find no stop goes on while sockets are missing.
round_goes_on :
    {A : Type 0} (missing s t : Bool) (a b c rest goal : A)
    → s ≡ false
    → t ≡ false
    → (missing ≡ true → rest ≡ goal)
    → (missing ≡ false → c ≡ goal)
    → (if missing then (if s then a else if t then b else rest) else c) ≡ goal
round_goes_on true false false a b c rest goal p q more done = more refl
round_goes_on false s t a b c rest goal p q more done = done refl
round_goes_on true false true a b c rest goal p q more done = cc
round_goes_on true true t a b c rest goal p q more done = cc

impossible : {n : ℕ} → n < 0 → ⊥
impossible h = omega arith

pub absurd_missing : (count target : ℕ) → count < target → ltb count target ≡ false → ⊥
absurd_missing count target c h = omega (arith, c, ltb→le count target h)

module _ {P : Type 0} (create : ℕ → P → P) where
  create_batch-add :
      (first m n : ℕ) (p : P)
      → create_batch create (first + m) n (create_batch create first m p)
        ≡ create_batch create first (m + n) p
  unfolding create_batch
  create_batch-add first zero n p =
      ap (λ k. create_batch create k n p) (add-zero first)
      ∙ sym (ap (λ k. create_batch create first k p) (zero-add n))
  create_batch-add first (suc m) n p =
      ap (λ k. create_batch create k n (create_batch create (suc first) m (create first p)))
        (add-suc first m ∙ sym (suc-add first m))
      ∙ create_batch-add (suc first) m n (create first p)
      ∙ sym (ap (λ k. create_batch create first k p) (suc-add m n))

  -- The batch of a round, and the rest of the sockets behind it.
  round-total :
      (count target size : ℕ) (p : P)
      → count + size ≤ target
      → create_batch create
          (count + size + 1)
          (target - (count + size))
          (create_batch create (count + 1) size p)
        ≡ create_batch create (count + 1) (target - count) p
  round-total count target size p h =
      let next : count + size + 1 ≡ count + 1 + size = omega arith in
      let whole : target - count ≡ size + (target - (count + size)) = omega arith in
      rw (next, whole) (create_batch-add (count + 1) size (target - (count + size)) p)

  -- Without a stop, any positive batch size and fuel for each missing socket do.
  progressive-total :
      (stop : ℕ → Bool) (fuel poll target batch count : ℕ) (p : P)
      → ((i : ℕ) → stop i ≡ false)
      → 0 < batch
      → count ≤ target
      → target - count < fuel
      → progressive create stop fuel poll target batch count p
        ≡ some (all_created, create_batch create (count + 1) (target - count) p)
  unfolding progressive batch_size create_batch
  progressive-total stop zero poll target batch count p go b c f = elim (impossible f) [ ]
  progressive-total stop (suc fuel) poll target batch count p go b c f =
      let size : ℕ = if ltb (target - count) batch then target - count else batch in
      let made : P = create_batch create (count + 1) size p in
      round_goes_on (ltb count target) _ _ _ _ _ _ _ (go poll) (go (poll + 1))
        (λ h.
          let missing : count < target = ltb→lt count target h in
          let bounds : (0 < size) × (size ≤ target - count) =
            batch_size_bounds (target - count) batch (omega arith) b in
          let ih =
            progressive-total stop fuel (poll + 2) target size (count + size) made go bounds.0
              (omega (arith, bounds.1)) (omega (arith, bounds.0)) in
          ih
          ∙ ap (λ q. some (all_created, q))
              (round-total count target size p (omega (arith, bounds.1))))
        (λ h.
          let none_left : target - count ≡ 0 = omega (arith, ltb→le count target h) in
          sym (ap (λ n. some (all_created, create_batch create (count + 1) n p)) none_left))

  -- Where no stop comes, and for any positive batch size, `progressiveSocketCreation` comes to its last
  -- `wg.Wait` with the sockets that the loop at once makes, in the same order, and returns from there
  -- just if their receivers end; fuel for each socket is enough.
  pub progressive_socket_creation-eq :
      (over : Ending → P → Bool) (stop : ℕ → Bool) (fuel target batch : ℕ) (p : P)
      → ((i : ℕ) → stop i ≡ false)
      → 0 < batch
      → target < fuel
      → let made = create_at_once create target p in
        progressive_socket_creation create over stop fuel target batch p
        ≡ some
            (if over all_created made then returned all_created made else blocked all_created made)
  unfolding progressive_socket_creation create_at_once
  progressive_socket_creation-eq over stop fuel target batch p go b f = ap (at_wait create over) (
      progressive-total stop fuel 0 target batch 0 p go b (omega arith) (omega arith)
      ∙ ap (λ n. some (all_created, create_batch create 1 n p)) (sub-zero target))

  progressive-stuck :
      (stop : ℕ → Bool) (fuel poll target batch count : ℕ) (p : P)
      → ((i : ℕ) → stop i ≡ false)
      → batch ≡ 0
      → count < target
      → progressive create stop fuel poll target batch count p ≡ none
  unfolding progressive
  progressive-stuck stop zero poll target batch count p go z c = refl
  progressive-stuck stop (suc fuel) poll target batch count p go z c =
      let size : ℕ = if ltb (target - count) batch then target - count else batch in
      let empty : size ≡ 0 = ground arith in
      round_goes_on (ltb count target) _ _ _ _ _ _ _ (go poll) (go (poll + 1))
        (λ _.
          progressive-stuck stop fuel (poll + 2) target size (count + size)
            (create_batch create (count + 1) size p) go empty (omega (arith, empty)))
        (λ h. elim (absurd_missing count target c h) [ ])

  -- With the batch size 0 the rounds never end: whatever the fuel, it runs out.
  pub progressive_socket_creation-stuck :
      (over : Ending → P → Bool) (stop : ℕ → Bool) (fuel target : ℕ) (p : P)
      → ((i : ℕ) → stop i ≡ false)
      → 0 < target
      → progressive_socket_creation create over stop fuel target 0 p ≡ none
  unfolding progressive_socket_creation
  progressive_socket_creation-stuck over stop fuel target p go h =
      ap (at_wait create over) (progressive-stuck stop fuel 0 target 0 0 p go refl h)
