-- ===== src/Afpacket/Shutdown.antt =====
-- Which descriptors a run of afpacket-stress leaves open: those of sockets that its goroutine makes
-- behind the closing loop, and no other.
use net_perf_test.Common.{
  ℕ, ◌+◌, ◌≤◌, ◌≡◌, Bool, false, ◌&&◌, Option, none, some, Result, count_by, length, ltb,
}
use net_perf_test.Afpacket.Sockets.{Call, Trace}
use net_perf_test.Afpacket.Progressive.{Ending}
use net_perf_test.Afpacket.Resources.{is_opened, is_closed, IsBalanced}
use net_perf_test.Afpacket.Run.{Options, Shared, close_left, or_none_closed}

module _ (answer : Trace → Call → Result ℕ ℕ) (options : Options) (iface_idx : ℕ)
    (late : Bool) where
  abbrev Sockets : Type 0
  Sockets = Shared answer options

  -- In balance; and where the closing loop is not late, it has not come, and leaves `left` tries.
  record IsKept (left : ℕ) (x : Sockets) : Type 0 where
    balanced : IsBalanced answer (or_none_closed answer options x.closed) x.pool
    early : late ≡ false → (x.closed ≡ none) × (left ≤ x.wait)

  -- The creation comes to a call of `wg.Wait`, with the sockets kept.
  abbrev Arrives : Option (Ending × Sockets) → Type 0
  Arrives o = (e : Ending) × (x : Sockets) × (o ≡ some (e, x)) × IsKept 0 x

  -- What the end of the program leaves of the sockets.
  abbrev Leaves : Sockets → Type 0
  Leaves x =
      let y = close_left answer options x.closed x in
      (count_by is_opened y.pool.trace + or_none_closed answer options y.closed
        ≡ count_by is_closed y.pool.trace + length y.pool.sockets)
      × (or_none_closed answer options y.closed ≤ length y.pool.sockets)
      × (late ≡ false → or_none_closed answer options y.closed ≡ length y.pool.sockets)

module _ (answer : Trace → Call → Result ℕ ℕ) (options : Options) (iface_idx : ℕ) where
  -- Whether the closing loop may come before all sockets are tried.
  abbrev pub is_late : ℕ → Bool
  is_late wait = options.progressive_add && ltb wait options.socket_count
