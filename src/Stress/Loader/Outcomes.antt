-- ===== src/Stress/Loader/Outcomes.antt =====
-- How `LoadAndAttach` of ebpf-stress/pkg/ebpf/loader.go ends.
use net_perf_test.Common.{
  ℕ, ◌+◌, ◌≡◌, refl, String, Bool, true, false, Option, none, some, List, [], ◌∷◌, Result, ok, err,
  arith, held, bind_post, ◌>>=◌, count_by, eq_iff, ◌⊎◌,
}
use net_perf_test.Stress.Loader.Types.{
  attach_xdp as attach_xdp_call, filter_add, hook_xdp, hook_tc_ingress, hook_tc_egress, Event,
  Trace, put, Filter, Parent, min_ingress, min_egress, remove_all, System, Error, attach_failed,
  Run, attempt, expect, get_loader, assign,
}
use net_perf_test.Stress.Loader.Attach.{attach_xdp, attach_tc, attach_socket, attach_program}
use net_perf_test.Stress.Loader.Lifecycle.{
  chmod_each, make_maps_readable, readable_if_pinned, open_collection, configure, load_collection,
  attached_or_detach, attach_or_detach, load_and_attach,
}
use net_perf_test.Stress.Loader.Resources.{IsUnattached, IsIdle}
use net_perf_test.Stress.Loader.Resources.Neutral.{IsNeutral-IsUnattached, configure-IsNeutral}
use net_perf_test.Stress.Loader.Resources.Balance.{
  detach-IsIdle, load_collection-IsUnattached, attach_program-IsBalanced,
}

-- An error that is not one of the attachment.
abbrev is_attach_error : Error → Bool
is_attach_error (attach_failed _) = true
is_attach_error _ = false

abbrev pub is_unpinned : Event → Bool
is_unpinned (remove_all _, _) = true
is_unpinned _ = false

abbrev pub is_write_done : Event → Bool
is_write_done (put _ _ _, ok _) = true
is_write_done _ = false

abbrev parent_of_link : Option Filter → Option Parent
parent_of_link none = none
parent_of_link (some f) = some (f.parent)

-- What the newest call has attached, if the kernel took it.
abbrev pub newest_link : Trace → Option ℕ
newest_link ((attach_xdp_call _ _, ok link) ∷ _) = some link
newest_link _ = none

abbrev pub newest_filter : Trace → Option Filter
newest_filter ((filter_add filter, ok _) ∷ _) = some filter
newest_filter _ = none

-- The program hangs on the hook that the configuration names, and on no other: the newest call has
-- attached what the loader holds, and the kernel took it.
abbrev pub IsAttached : Run → Type 0
IsAttached s =
    let l = s.loader in
    ((l.config.hook ≡ hook_xdp)
      × (held l.xdp_link ≡ 1)
      × (l.xdp_link ≡ newest_link s.trace)
      × (held l.tc_link ≡ 0))
    ⊎ ((l.config.hook ≡ hook_tc_ingress)
        × (held l.xdp_link ≡ 0)
        × (parent_of_link l.tc_link ≡ some min_ingress)
        × (l.tc_link ≡ newest_filter s.trace))
    ⊎ ((l.config.hook ≡ hook_tc_egress)
        × (held l.xdp_link ≡ 0)
        × (parent_of_link l.tc_link ≡ some min_egress)
        × (l.tc_link ≡ newest_filter s.trace))

module _ (sys : System) where
  pub attach_or_detach_failed :
      (s : Run)
      → IsUnattached s
      → (e : Error) → (attach_or_detach sys s).0 ≡ err e
      → IsIdle (attach_or_detach sys s).1
  unfolding attach_or_detach
  attach_or_detach_failed s h e = at (attach_program sys s).0
    where
      t : Run
      t = (attach_program sys s).1

      at :
          (r : Result Error (Unit {0}))
          → (attached_or_detach sys r t).0 ≡ err e
          → IsIdle (attached_or_detach sys r t).1
      at (ok _) p = cc
      at (err _) p = detach-IsIdle sys t (attach_program-IsBalanced sys s h)

  configure_error : (s : Run) (e : Error) → (configure sys s).0 ≡ err e → is_attach_error e ≡ false
  unfolding configure expect get_loader
  configure_error s e h = ground arith

  chmod_each_ok : (names : List String) (s : Run) → (chmod_each sys names s).0 ≡ ok tt
  unfolding chmod_each attempt
  chmod_each_ok [] s = refl
  chmod_each_ok (name ∷ names) s = chmod_each_ok names _

  readable_if_pinned_ok : (s : Run) → (readable_if_pinned sys s).0 ≡ ok tt
  unfolding readable_if_pinned make_maps_readable attempt
  readable_if_pinned_ok s = grind (arith, chmod_each_ok)

  load_collection_error :
      (s : Run) (e : Error) → (load_collection sys s).0 ≡ err e → is_attach_error e ≡ false
  unfolding load_collection expect open_collection get_loader assign ◌>>=◌
  load_collection_error s e h = grind (arith, readable_if_pinned_ok)

  -- `LoadAndAttach` that fails to attach the program, on a loader that held nothing, leaves every
  -- link and filter that it made removed, the collection closed, and nothing held.
  pub load_and_attach-attach_failed :
      (s : Run) (e : Error)
      → IsIdle s
      → (load_and_attach sys s).0 ≡ err (attach_failed e)
      → IsIdle (load_and_attach sys s).1
  unfolding load_and_attach
  load_and_attach-attach_failed s e h =
      bind_post (λ r t. r ≡ err (attach_failed e) → IsIdle t) (load_collection sys) _ s
        (λ x p q. absurd (ground (arith, load_collection_error s x p)))
        λ _ _.
          bind_post (λ r t. r ≡ err (attach_failed e) → IsIdle t) (configure sys)
            (λ _. attach_or_detach sys) _ (λ x p q. absurd (ground (arith, configure_error _ x p)))
            λ _ _.
              attach_or_detach_failed _
                (IsNeutral-IsUnattached (configure-IsNeutral sys _)
                  (load_collection-IsUnattached sys s h))
                (attach_failed e)

  attach_program-IsAttached :
      (s : Run)
      → IsUnattached s
      → (attach_program sys s).0 ≡ ok tt
      → IsAttached (attach_program sys s).1
  unfolding attach_program attach_xdp attach_tc attach_socket expect attempt get_loader assign
  attach_program-IsAttached s u h = ground (
    arith,
    eq_iff s.loader.config.hook hook_xdp,
    eq_iff s.loader.config.hook hook_tc_ingress,
    eq_iff s.loader.config.hook hook_tc_egress,
  )

  attach_or_detach-IsAttached :
      (s : Run)
      → IsUnattached s
      → (attach_or_detach sys s).0 ≡ ok tt
      → IsAttached (attach_or_detach sys s).1
  unfolding attach_or_detach
  attach_or_detach-IsAttached s u = at (attach_program sys s).0 (attach_program-IsAttached s u)
    where
      t : Run
      t = (attach_program sys s).1

      at :
          (r : Result Error (Unit {0}))
          → (r ≡ ok tt → IsAttached t)
          → (attached_or_detach sys r t).0 ≡ ok tt
          → IsAttached (attached_or_detach sys r t).1
      at (ok _) a p = a refl
      at (err e) a p = cc

  -- `LoadAndAttach` that succeeds, on a loader that held nothing, has the program on the hook that
  -- the configuration names: an XDP link and no filter for "xdp", a filter at the ingress or the
  -- egress parent and no XDP link for "tc-ingress" and "tc-egress". That link or filter is what the
  -- last call of the kernel made, without an error. It succeeds for no other hook.
  pub load_and_attach-IsAttached :
      (s : Run)
      → IsIdle s
      → (load_and_attach sys s).0 ≡ ok tt
      → IsAttached (load_and_attach sys s).1
  unfolding load_and_attach
  load_and_attach-IsAttached s h =
      bind_post (λ r t. r ≡ ok tt → IsAttached t) (load_collection sys) _ s (λ x p q. cc)
        λ _ _.
          bind_post (λ r t. r ≡ ok tt → IsAttached t) (configure sys) (λ _. attach_or_detach sys) _
            (λ x p q. cc)
            λ _ _. attach_or_detach-IsAttached _ (
              IsNeutral-IsUnattached (configure-IsNeutral sys _)
                (load_collection-IsUnattached sys s h))

  -- The writes of a configuration that succeeds, behind the trace `t`.
  abbrev pub with_writes : ℕ → ℕ → Option ℕ → Trace → Trace
  with_writes m loops none t = (put m 0 loops, sys.answer t (put m 0 loops)) ∷ t
  with_writes m loops (some enabled) t =
      let t' = (put m 0 loops, sys.answer t (put m 0 loops)) ∷ t in
      (put enabled 0 1, sys.answer t' (put enabled 0 1)) ∷ t'

  -- With a map for the loop count, a configuration that succeeds calls for exactly these writes: the configured loop count into that map, and behind
  -- it the word 1 into the enabling map, if there is one. The loader stays as it is.
  pub configure_ok :
      (s : Run) (m : ℕ)
      → s.loader.loop_count_map ≡ some m
      → (configure sys s).0 ≡ ok tt
      → ((configure sys s).1.trace
          ≡ with_writes m s.loader.config.loops s.loader.enabled_map s.trace)
        × ((configure sys s).1.loader ≡ s.loader)
        × (count_by is_write_done (configure sys s).1.trace
            ≡ count_by is_write_done s.trace + 1 + held s.loader.enabled_map)
  unfolding configure expect get_loader
  configure_ok s m e h = ground arith
