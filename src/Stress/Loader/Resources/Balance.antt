-- ===== src/Stress/Loader/Resources/Balance.antt =====
-- Every operation of the loader keeps the balance.
use net_perf_test.Common.{ℕ, ◌≡◌, Bool, none, ok, err, arith, bind_state, held, true, false, Result}
use net_perf_test.Stress.Loader.Types.{System, Error, Run, attempt, expect, get_loader, assign}
use net_perf_test.Stress.Loader.Attach.{
  attach_xdp, attach_tc, attach_socket, attach_program, attach_socket,
}
use net_perf_test.Stress.Loader.Lifecycle.{
  set_enabled, close_xdp, remove_filter, close_socket, close_held, unpin, with_collection, detach,
  open_collection, load_collection, attached_or_detach, attach_or_detach, load_and_attach,
}
use net_perf_test.Stress.Loader.Resources.{IsBalanced, IsUnattached, IsIdle}
use net_perf_test.Stress.Loader.Resources.Neutral.{
  IsNeutral-IsBalanced, set_enabled-IsNeutral, load_spec-IsNeutral, IsNeutral-IsUnattached,
  IsNeutral-IsIdle, expect_memlock-IsNeutral, readable_if_pinned-IsNeutral, configure-IsNeutral,
}

module _ (sys : System) where
  attach_xdp-IsBalanced :
      (s : Run) → IsBalanced s → held s.loader.xdp_link ≡ 0 → IsBalanced (attach_xdp sys s).1
  unfolding attach_xdp expect get_loader assign
  attach_xdp-IsBalanced s b h = ground arith

  attach_tc-IsBalanced :
      (ingress : Bool) (s : Run)
      → IsBalanced s
      → held s.loader.tc_link ≡ 0
      → IsBalanced (attach_tc sys ingress s).1
  unfolding attach_tc expect attempt get_loader assign
  attach_tc-IsBalanced ingress s b h = ground arith

  close_xdp-IsBalanced : (s : Run) → IsBalanced s → IsBalanced (close_xdp sys s).1
  unfolding close_xdp
  close_xdp-IsBalanced s b = ground arith

  remove_filter-IsBalanced : (s : Run) → IsBalanced s → IsBalanced (remove_filter sys s).1
  unfolding remove_filter
  remove_filter-IsBalanced s b = ground arith

  close_socket-IsBalanced : (s : Run) → IsBalanced s → IsBalanced (close_socket sys s).1
  unfolding close_socket
  close_socket-IsBalanced s b = ground arith

  close_held-IsBalanced : (s : Run) → IsBalanced s → IsBalanced (close_held sys s)
  unfolding close_held
  close_held-IsBalanced s b = ground arith

  unpin-IsBalanced : (s : Run) → IsBalanced s → IsBalanced (unpin sys s)
  unfolding unpin
  unpin-IsBalanced s b = ground arith

  pub detach-IsBalanced : (s : Run) → IsBalanced s → IsBalanced (detach sys s).1
  unfolding detach
  detach-IsBalanced s b = unpin-IsBalanced _ (
      close_held-IsBalanced _ (
        close_socket-IsBalanced _ (
          remove_filter-IsBalanced _
            (close_xdp-IsBalanced _ (IsNeutral-IsBalanced (set_enabled-IsNeutral sys false s) b)))))

  close_xdp-loader : (s : Run) → (close_xdp sys s).1.loader ≡ record (s.loader) { xdp_link = none }
  unfolding close_xdp
  close_xdp-loader s = ground arith

  remove_filter-loader :
      (s : Run)
      → held s.loader.tc_iface ≡ held s.loader.tc_link
      → (remove_filter sys s).1.loader ≡ record (s.loader) { tc_link = none; tc_iface = none }
  unfolding remove_filter
  remove_filter-loader s h = ground arith

  close_socket-loader :
      (s : Run) → (close_socket sys s).1.loader ≡ record (s.loader) { socket_link = none }
  unfolding close_socket
  close_socket-loader s = ground arith

  close_held-loader :
      (s : Run) → (close_held sys s).loader ≡ record (s.loader) { collection = none }
  unfolding close_held
  close_held-loader s = ground arith

  unpin-loader : (s : Run) → (unpin sys s).loader ≡ s.loader
  unfolding unpin
  unpin-loader s = ground arith

  -- The loader that `detach` leaves.
  pub detach-loader :
      (s : Run)
      → IsBalanced s
      → (detach sys s).1.loader ≡ record (s.loader) {
        xdp_link = none;
        tc_link = none;
        tc_iface = none;
        socket_link = none;
        collection = none;
      }
  unfolding detach
  detach-loader s b =
      let s1 : Run = (set_enabled sys false s).1 in
      let s2 : Run = (close_xdp sys s1).1 in
      let s3 : Run = (remove_filter sys s2).1 in
      let s4 : Run = (close_socket sys s3).1 in
      let b2 =
        close_xdp-IsBalanced s1 (IsNeutral-IsBalanced (set_enabled-IsNeutral sys false s) b) in
      ground (
        arith,
        set_enabled-IsNeutral sys false s,
        close_xdp-loader s1,
        remove_filter-loader s2 b2.filter_place,
        close_socket-loader s3,
        close_held-loader s4,
        unpin-loader (close_held sys s4),
      )

  -- `Detach` on a loader that accounts for all it has opened closes and removes all of it, also
  -- where single steps fail, and nothing is held behind it.
  pub detach-IsIdle : (s : Run) → IsBalanced s → IsIdle (detach sys s).1
  detach-IsIdle s b = record {
    balanced = detach-IsBalanced s b;
    detached = ground (arith, detach-loader s b);
  }

  open_collection-IsUnattached :
      (spec : ℕ) (s : Run) → IsIdle s → IsUnattached (open_collection sys spec s).1
  unfolding open_collection expect get_loader assign
  open_collection-IsUnattached spec s h = ground arith

  with_collection-IsUnattached :
      (c : ℕ) (s : Run) → IsUnattached s → IsUnattached (assign (with_collection sys c) s).1
  unfolding assign
  with_collection-IsUnattached c s h = ground arith

  pub IsIdle-IsUnattached : (s : Run) → IsIdle s → IsUnattached s
  IsIdle-IsUnattached s h = ground arith

  pub load_collection-IsUnattached : (s : Run) → IsIdle s → IsUnattached (load_collection sys s).1
  unfolding load_collection
  load_collection-IsUnattached s h =
      bind_state IsIdle IsUnattached _ _ s (IsNeutral-IsIdle (expect_memlock-IsNeutral sys _ s) h)
        IsIdle-IsUnattached
        λ _ t p.
          bind_state IsIdle IsUnattached _ _ t (IsNeutral-IsIdle (load_spec-IsNeutral sys t) p)
            IsIdle-IsUnattached
            λ spec u q.
              bind_state IsUnattached IsUnattached _ _ u (open_collection-IsUnattached spec u q)
                (λ _ w. w)
                λ c v r.
                  bind_state IsUnattached IsUnattached _ _ v
                    (IsNeutral-IsUnattached (readable_if_pinned-IsNeutral sys v) r) (λ _ w. w)
                    λ _ w. with_collection-IsUnattached c w

  pub attach_program-IsBalanced : (s : Run) → IsUnattached s → IsBalanced (attach_program sys s).1
  unfolding attach_program get_loader attach_socket
  attach_program-IsBalanced s h = ground (
    arith,
    attach_xdp-IsBalanced s h.balanced h.no_xdp,
    attach_tc-IsBalanced true s h.balanced h.no_tc,
    attach_tc-IsBalanced false s h.balanced h.no_tc,
  )

  attach_or_detach-IsBalanced : (s : Run) → IsUnattached s → IsBalanced (attach_or_detach sys s).1
  unfolding attach_or_detach
  attach_or_detach-IsBalanced s h = at (attach_program sys s).0
    where
      t : Run
      t = (attach_program sys s).1

      b : IsBalanced t
      b = attach_program-IsBalanced s h

      at : (r : Result Error (Unit {0})) → IsBalanced (attached_or_detach sys r t).1
      at (ok _) = b
      at (err e) = detach-IsBalanced t b

  -- From an idle loader, `LoadAndAttach` opens and attaches nothing that it loses track of, however
  -- it ends: what was opened and not closed is held in a field.
  pub load_and_attach-IsBalanced : (s : Run) → IsIdle s → IsBalanced (load_and_attach sys s).1
  unfolding load_and_attach
  load_and_attach-IsBalanced s h =
      bind_state IsUnattached IsBalanced _ _ s (load_collection-IsUnattached s h)
        (λ _ u. u.balanced)
        λ _ t p.
          bind_state IsUnattached IsBalanced _ _ t
            (IsNeutral-IsUnattached (configure-IsNeutral sys t) p) (λ _ u. u.balanced)
            λ _ u q. attach_or_detach-IsBalanced u q
