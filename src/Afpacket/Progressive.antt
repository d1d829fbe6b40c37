-- ===== src/Afpacket/Progressive.antt =====
-- `progressiveSocketCreation` of traffic-generator/cmd/afpacket-stress/main.go, and the loop of
-- `main` that makes all sockets at once. Both make the sockets 1 to n by the same body, `create`.
use net_perf_test.Common.{ℕ, zero, suc, ◌+◌, ◌-◌, Bool, Option, none, some, ltb, if◌then◌else◌}

-- At which call of `wg.Wait` the function arrives: behind all batches, or where it has seen the stop.
pub data Ending : Type 0 where
  all_created stopped : Ending

-- `wg.Wait` returns once each receiver that the function has started is over; until then it blocks.
pub data Outcome (P : Type 0) : Type 0 where
  returned blocked : Ending → P → Outcome P

module _ {P : Type 0} (create : ℕ → P → P) where
  -- The sockets with the ids `first`, `first + 1`, ..., `n` of them.
  unfoldable pub create_batch : ℕ → ℕ → P → P
  create_batch first zero p = p
  create_batch first (suc n) p = create_batch (suc first) n (create first p)

  -- `for i := 0; i < *socketCount; i++`
  unfoldable pub create_at_once : ℕ → P → P
  create_at_once target p = create_batch 1 target p

  -- A round sees the stop channel before the batch and while it waits behind it. The batch size
  -- that is cut down for the last round is kept, as in the source. The rounds up to `wg.Wait`; `none`
  -- means that the fuel ran out; `stop` says what the polls of the stop channel find, by their number.
  unfoldable pub progressive : (ℕ → Bool) → ℕ → ℕ → ℕ → ℕ → ℕ → P → Option (Ending × P)
  progressive stop zero poll target batch count p = none
  progressive stop (suc fuel) poll target batch count p =
      let remaining = target - count in
      let size = if ltb remaining batch then remaining else batch in
      let made = create_batch (count + 1) size p in
      let rest = progressive stop fuel (poll + 2) target size (count + size) made in
      if ltb count target
      then (if stop poll
          then some (stopped, p)
          else if stop (poll + 1)
          then some (stopped, made)
          else rest)
      else some (all_created, p)

  -- `wg.Wait()`; `over` says whether the receivers end.
  abbrev pub at_wait : (Ending → P → Bool) → Option (Ending × P) → Option (Outcome P)
  at_wait over none = none
  at_wait over (some (e, p)) = some (if over e p then returned e p else blocked e p)

  -- `progressiveSocketCreation`, from no socket.
  unfoldable pub progressive_socket_creation :
      (Ending → P → Bool) → (ℕ → Bool) → ℕ → ℕ → ℕ → P → Option (Outcome P)
  progressive_socket_creation over stop fuel target batch p =
      at_wait over (progressive stop fuel 0 target batch 0 p)
