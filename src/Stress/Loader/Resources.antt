-- ===== src/Stress/Loader/Resources.antt =====
-- What the loader opens and closes in the kernel (ebpf-stress/pkg/ebpf/loader.go), counted on the
-- trace.
pub mod Neutral
pub mod Balance
use net_perf_test.Common.{ℕ, ◌+◌, ◌≡◌, Bool, true, false, ok, held, count_by}
use net_perf_test.Stress.Loader.Types.{
  new_collection, close_collection, attach_xdp, close_link, filter_add, filter_del, Loader, Event,
  Trace, Run,
}

abbrev pub is_link_opened : Event → Bool
is_link_opened (attach_xdp _ _, ok _) = true
is_link_opened _ = false

-- A close gives the link up, also where it answers with an error.
abbrev pub is_link_closed : Event → Bool
is_link_closed (close_link _, _) = true
is_link_closed _ = false

abbrev pub is_filter_added : Event → Bool
is_filter_added (filter_add _, ok _) = true
is_filter_added _ = false

-- The call to remove a filter, also where it answers with an error: `Detach` does not try again.
abbrev pub is_filter_removed : Event → Bool
is_filter_removed (filter_del _, _) = true
is_filter_removed _ = false

abbrev pub is_collection_opened : Event → Bool
is_collection_opened (new_collection _ _, ok _) = true
is_collection_opened _ = false

abbrev pub is_collection_closed : Event → Bool
is_collection_closed (close_collection _, _) = true
is_collection_closed _ = false

-- Whatever was opened is closed or held in a field of the loader.
pub record IsBalanced (s : Run) : Type 0 where
  pub links :
      count_by is_link_opened s.trace
      ≡ count_by is_link_closed s.trace + held s.loader.xdp_link + held s.loader.socket_link
  pub filters :
      count_by is_filter_added s.trace ≡ count_by is_filter_removed s.trace + held s.loader.tc_link
  pub filter_place : held s.loader.tc_iface ≡ held s.loader.tc_link
  pub collections :
      count_by is_collection_opened s.trace
      ≡ count_by is_collection_closed s.trace + held s.loader.collection

-- Nothing is attached, and no collection is open.
pub record IsDetached (l : Loader) : Type 0 where
  pub no_xdp : held l.xdp_link ≡ 0
  pub no_tc : held l.tc_link ≡ 0
  pub no_socket : held l.socket_link ≡ 0
  pub no_collection : held l.collection ≡ 0

-- Balanced, with no attachment; a collection may be open.
pub record IsUnattached (s : Run) : Type 0 where
  pub balanced : IsBalanced s
  pub no_xdp : held s.loader.xdp_link ≡ 0
  pub no_tc : held s.loader.tc_link ≡ 0

-- Balanced, with nothing attached and nothing open.
pub record IsIdle (s : Run) : Type 0 where
  pub balanced : IsBalanced s
  pub detached : IsDetached s.loader

-- A step that opens and closes nothing, and leaves the loader as it is.
pub record IsNeutral (s t : Run) : Type 0 where
  pub same_loader : t.loader ≡ s.loader
  pub opened_links : count_by is_link_opened t.trace ≡ count_by is_link_opened s.trace
  pub closed_links : count_by is_link_closed t.trace ≡ count_by is_link_closed s.trace
  pub added_filters : count_by is_filter_added t.trace ≡ count_by is_filter_added s.trace
  pub removed_filters : count_by is_filter_removed t.trace ≡ count_by is_filter_removed s.trace
  pub opened_collections :
      count_by is_collection_opened t.trace ≡ count_by is_collection_opened s.trace
  pub closed_collections :
      count_by is_collection_closed t.trace ≡ count_by is_collection_closed s.trace
