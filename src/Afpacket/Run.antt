-- ===== src/Afpacket/Run.antt =====
-- `main` of traffic-generator/cmd/afpacket-stress/main.go, as far as it makes and closes sockets:
-- the interface, the split of the rate, the creation in one of its two modes, and the shutdown. In
-- the progressive mode the creation is a goroutine, and may still go on behind the closing loop.
use net_perf_test.Common.{
  ℕ, zero, suc, ◌-◌, Bool, Option, none, some, [], Result, ok, err, length, if◌then◌else◌,
}
use net_perf_test.Common.Ints.{ℤ}
use net_perf_test.Traffic.Pacing.{worker_count, pps_per_worker}
use net_perf_test.Afpacket.Sockets.{Call, Trace, Pool, add_socket, close_all}
use net_perf_test.Afpacket.Progressive.{
  Ending, Outcome, returned, blocked, create_at_once, progressive_socket_creation,
}

-- The flags that this part of `main` reads.
pub record Options : Type 0 where
  pub socket_count : ℕ
  pub target_pps : ℤ
  pub workers : ℤ
  pub progressive_add : Bool
  pub socket_batch : ℕ

-- What is left at the end: the number of sockets that is printed, how many of them the closing loop
-- went through, the workers that were started and the share of each, and the calls.
pub record Finished : Type 0 where
  pub socket_count : ℕ
  pub closed_count : ℕ
  pub worker_count : ℕ
  pub share : ℤ
  pub trace : Trace

module _ (answer : Trace → Call → Result ℕ ℕ) (options : Options) where
  -- The sockets that both goroutines share. `closed` is how many of them the closing loop went
  -- through, once it has; before that, `wait` more sockets are tried.
  pub record Shared : Type 0 where
    pub pool : Pool answer
    pub closed : Option ℕ
    pub wait : ℕ

  abbrev pub empty_pool : Pool answer
  empty_pool = record { sockets = []; active = 0; trace = [] }

  -- The closing loop, over the sockets that are there.
  abbrev pub close_now : Shared → Shared
  close_now x =
      let closed_pool = record x.pool { trace = close_all answer x.pool.sockets x.pool.trace } in
      record { pool = closed_pool; closed = some (length x.pool.sockets); wait = x.wait }

  abbrev pub close_if_due : Option ℕ → ℕ → Shared → Shared
  close_if_due none zero x = close_now x
  close_if_due none (suc _) x = x
  close_if_due (some _) _ x = x

  -- The goroutine tries the next socket, before or behind the closing loop, which holds the lock.
  abbrev pub add_shared : ℕ → ℕ → Shared → Shared
  add_shared iface_idx id x =
      let y = close_if_due x.closed x.wait x in
      record y { pool = add_socket answer iface_idx id y.pool; wait = y.wait - 1 }

  -- `main` waits for the goroutine for five seconds at most, and ends also where it blocks.
  abbrev pub shared_of : Option (Outcome Shared) → Option Shared
  shared_of none = none
  shared_of (some (returned _ x)) = some x
  shared_of (some (blocked _ x)) = some x

  -- `stop` says what the polls of the stop channel find, and `over` whether the receivers end. The
  -- closing loop comes when `wait` sockets were tried, in the progressive mode. `none` means that the
  -- fuel ran out.
  unfoldable pub make_sockets :
      (Ending → Shared → Bool) → (ℕ → Bool) → (fuel wait iface_idx : ℕ) → Option Shared
  make_sockets over stop fuel wait iface_idx =
      if options.progressive_add
      then shared_of (
          progressive_socket_creation (add_shared iface_idx) over stop fuel options.socket_count
            options.socket_batch (record { pool = empty_pool; closed = none; wait = wait }))
      else some (record {
        pool = create_at_once (add_socket answer iface_idx) options.socket_count empty_pool;
        closed = none;
        wait = wait;
      })

  -- A closing loop that has not come yet comes now.
  abbrev pub close_left : Option ℕ → Shared → Shared
  close_left none x = close_now x
  close_left (some _) x = x

  abbrev pub or_none_closed : Option ℕ → ℕ
  or_none_closed none = 0
  or_none_closed (some n) = n

  abbrev pub finished_by : ℕ → Option Shared → Option Finished
  finished_by num_cpu none = none
  finished_by num_cpu (some x) =
      let workers = worker_count options.workers num_cpu in
      let y = close_left x.closed x in
      some (record {
        socket_count = length y.pool.sockets;
        closed_count = or_none_closed y.closed;
        worker_count = workers;
        share = pps_per_worker options.target_pps workers;
        trace = y.pool.trace;
      })

  -- `found` is what `getInterfaceIndex` returns; its error ends the program before any socket is
  -- made.
  unfoldable pub main :
      (Ending → Shared → Bool)
      → (ℕ → Bool)
      → (fuel wait num_cpu : ℕ) → Result ℕ ℕ
      → Result ℕ (Option Finished)
  main over stop fuel wait num_cpu (err e) = err e
  main over stop fuel wait num_cpu (ok iface_idx) =
      ok (finished_by num_cpu (make_sockets over stop fuel wait iface_idx))
