-- ===== src/Afpacket/Resources.antt =====
-- No file descriptor of traffic-generator/cmd/afpacket-stress/main.go is lost.
use net_perf_test.Afpacket.Progressive.{create_batch, create_at_once}
use net_perf_test.Common.{
  ℕ, zero, suc, ◌≤◌, ◌+◌, ◌≡◌, refl, Bool, true, false, List, [], ◌∷◌, ◌++◌, Result, ok, err, arith,
  count_by, length, length-append,
}
use net_perf_test.Afpacket.Sockets.{
  Call, socket, close, Trace, Error, AfPacketSocket, Pool, attempt, create_af_packet_socket, added,
  add_socket, close_all,
}

abbrev pub is_opened : Call × Result ℕ ℕ → Bool
is_opened (socket _, ok _) = true
is_opened _ = false

abbrev pub is_closed : Call × Result ℕ ℕ → Bool
is_closed (close _, _) = true
is_closed _ = false

-- The sockets that a result holds.
abbrev made : Result Error AfPacketSocket → ℕ
made (ok _) = 1
made (err _) = 0

module _ (answer : Trace → Call → Result ℕ ℕ) where
  create_balance :
      (id iface_idx : ℕ) (t : Trace)
      → count_by is_opened (create_af_packet_socket answer id iface_idx t).1 + count_by is_closed t
        ≡ count_by is_opened t
          + made (create_af_packet_socket answer id iface_idx t).0
          + count_by is_closed (create_af_packet_socket answer id iface_idx t).1
  unfolding create_af_packet_socket attempt
  create_balance id iface_idx t = ground arith

  -- Every descriptor that was opened is closed, or stands in the pool behind the first `done` ones,
  -- which are closed already; the pool's counter is its size.
  pub record IsBalanced (done : ℕ) (p : Pool answer) : Type 0 where
    pub descriptors :
        count_by is_opened p.trace + done ≡ count_by is_closed p.trace + length p.sockets
    pub counted : p.active ≡ length p.sockets
    pub within : done ≤ length p.sockets

  added-IsBalanced :
      (done : ℕ) (r : Result Error AfPacketSocket) (p : Pool answer) (t : Trace)
      → count_by is_opened t + done ≡ count_by is_closed t + length p.sockets + made r
      → p.active ≡ length p.sockets
      → done ≤ length p.sockets
      → IsBalanced done (added answer r p t)
  added-IsBalanced done (ok s) p t h k w =
      let grown : length (p.sockets ++ (s ∷ [])) ≡ length p.sockets + 1 =
        length-append p.sockets (s ∷ []) in
      record {
        descriptors = omega (arith, h, grown);
        counted = omega (arith, k, grown);
        within = omega (arith, w, grown);
      }
  added-IsBalanced done (err _) p t h k w = record {
    descriptors = omega (arith, h);
    counted = k;
    within = w;
  }

  -- Making a socket keeps the balance: where a step fails, the descriptor is closed again.
  pub add_socket-IsBalanced :
      (done iface_idx id : ℕ) (p : Pool answer)
      → IsBalanced done p
      → IsBalanced done (add_socket answer iface_idx id p)
  unfolding add_socket
  add_socket-IsBalanced done iface_idx id p b =
      added-IsBalanced done _ p _
        (omega (arith, create_balance id iface_idx p.trace, b.descriptors)) b.counted b.within

  -- The closing loop closes as many descriptors as there are sockets, and opens none.
  pub close_all_counts :
      (ss : List AfPacketSocket) (t : Trace)
      → (count_by is_closed (close_all answer ss t) ≡ count_by is_closed t + length ss)
        × (count_by is_opened (close_all answer ss t) ≡ count_by is_opened t)
  unfolding close_all
  close_all_counts [] t = (omega arith, refl)
  close_all_counts (s ∷ ss) t =
      ground (arith, close_all_counts ss ((close s.fd, answer t (close s.fd)) ∷ t))

  pub create_batch-IsBalanced :
      (iface_idx first n : ℕ) (p : Pool answer)
      → IsBalanced 0 p
      → IsBalanced 0 (create_batch (add_socket answer iface_idx) first n p)
  unfolding create_batch
  create_batch-IsBalanced iface_idx first zero p b = b
  create_batch-IsBalanced iface_idx first (suc n) p b =
      create_batch-IsBalanced iface_idx (suc first) n _
        (add_socket-IsBalanced 0 iface_idx first p b)

  -- The making of the sockets and the closing loop of the shutdown.
  abbrev pub run_sockets : ℕ → ℕ → Pool answer → Trace
  run_sockets iface_idx target p =
      let made = create_at_once (add_socket answer iface_idx) target p in
      close_all answer made.sockets made.trace

  -- From a pool in balance, and whatever the kernel answers to each call, as many descriptors are
  -- closed by the end of the closing loop as were opened: those of the pool by that loop, the others
  -- where they failed.
  pub run_sockets-no_leak :
      (iface_idx target : ℕ) (p : Pool answer)
      → IsBalanced 0 p
      → count_by is_opened (run_sockets iface_idx target p)
        ≡ count_by is_closed (run_sockets iface_idx target p)
  unfolding create_at_once
  run_sockets-no_leak iface_idx target p b =
      let made = create_batch (add_socket answer iface_idx) 1 target p in
      let c = close_all_counts made.sockets made.trace in
      let held = create_batch-IsBalanced iface_idx 1 target p b in
      omega (arith, c.1, held.descriptors, c.0)
