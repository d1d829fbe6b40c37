-- ===== src/Exporter/Latency/Balance.antt =====
-- Every link that the latency collector makes is closed by `Stop`
-- (ebpf-exporter/pkg/latency/collector.go).
use net_perf_test.Common.{
  ℕ, ap, ◌+◌, ◌≡◌, refl, ◌∙◌, String, Bool, false, Option, List, [], ◌∷◌, Result, ok, err, arith,
  count_by, ◌==◌, Bool-cases, inl, inr, true, sym, bind_state, ◌||◌, str_eq, All,
}
use net_perf_test.Common.Floats.{Floats}
use net_perf_test.Exporter.Latency.Types.{
  Event, put_link, System, Collector, Error, attempt, expect, get_collector, change,
}
use net_perf_test.Exporter.Latency.Start.{
  State, make_maps_readable, attach_to_interface, attach_each, mark_attached, run_with,
  load_and_attach, pinned_or_load, start, stop, with_maps, open_collection, attach_all,
}
use net_perf_test.Exporter.Latency.Links.{
  is_attached, is_closed, is_link_call, link_calls, one_if, entries_of, IsQuiet,
  open_pinned_maps-IsQuiet, load_spec_from-IsQuiet, chmod_each-IsQuiet, chmod_each_ok, stop-closes,
}

abbrev has_link : String → List (String × ℕ) → Bool
has_link k [] = false
has_link k ((k', _) ∷ links) = str_eq k k' || has_link k links

entries_of-put_link :
    (l : ℕ) (k : String) (v : ℕ) (links : List (String × ℕ))
    → has_link k links ≡ false
    → entries_of l (put_link k v links) ≡ one_if (v == l) + entries_of l links
entries_of-put_link l k v [] h = refl
entries_of-put_link l k v ((k', v') ∷ links) h = elim (Bool-cases (str_eq k k')) [
  | inl e ↦ absurd (ground arith)
  | inr e ↦ rw e (omega (arith, entries_of-put_link l k v links (ground arith)))
]

-- Calls that make or close no link leave the counts.
count-link_calls :
    (p : Event → Bool) (t : List Event)
    → ((event : Event) → p event ≡ true → is_link_call event ≡ true)
    → count_by p (link_calls t) ≡ count_by p t
count-link_calls p [] only = refl
count-link_calls p (event ∷ t) only =
    let ih = count-link_calls p t only in
    elim (Bool-cases (is_link_call event)) [
      | inl e ↦ rw (e, ih) refl
      | inr e ↦ elim (Bool-cases (p event)) [
        | inl q ↦ absurd (ground (arith, only event q))
        | inr q ↦ rw (e, q) ih
      ]
    ]

attached-is_link_call :
    (l : ℕ) (event : Event) → is_attached l event ≡ true → is_link_call event ≡ true
attached-is_link_call l event h = ground arith

closed-is_link_call : (l : ℕ) (event : Event) → is_closed l event ≡ true → is_link_call event ≡ true
closed-is_link_call l event h = ground arith

has_link-put_link :
    (j k : String) (v : ℕ) (links : List (String × ℕ))
    → has_link j links ≡ false
    → str_eq j k ≡ false
    → has_link j (put_link k v links) ≡ false
has_link-put_link j k v [] h e = ground arith
has_link-put_link j k v ((k', v') ∷ links) h e = ground (arith, has_link-put_link j k v links)

-- No name occurs twice.
abbrev pub IsDistinct : List String → Type 0
IsDistinct [] = Unit
IsDistinct (name ∷ names) = All (λ n. str_eq n name ≡ false) names × IsDistinct names

-- None of the names has a link.
abbrev IsFresh : List (String × ℕ) → List String → Type 0
IsFresh links names = All (λ n. has_link n links ≡ false) names

all_unlinked : (names : List String) → IsFresh [] names
all_unlinked [] = tt
all_unlinked (name ∷ names) = (refl, all_unlinked names)

-- A handle is open as often as the table holds it.
pub record IsOwned (l : ℕ) {F : Type 0} (c : Collector F) : Type 0 where
  pub owned :
      count_by (is_attached l) c.trace ≡ count_by (is_closed l) c.trace + entries_of l c.xdp_links

module _ (sys : System) (floats : Floats) (l : ℕ) where
  -- Attaching to an interface leaves the table of links, or puts a new link under its name.
  abbrev attached_to : ℕ → String → State sys floats → State sys floats
  attached_to coll ifname c =
      let r = attach_to_interface sys floats coll ifname c in
      mark_attached sys floats ifname r.0 r.1

  attached_to-has_link :
      (coll : ℕ) (j ifname : String) (c : State sys floats)
      → has_link j c.xdp_links ≡ false
      → str_eq j ifname ≡ false
      → has_link j (attached_to coll ifname c).xdp_links ≡ false
  unfolding attach_to_interface expect change
  attached_to-has_link coll j ifname c h e = grind (arith, has_link-put_link)

  attached_to-IsFresh :
      (coll : ℕ) (ifname : String) (c : State sys floats) (names : List String)
      → IsFresh c.xdp_links names
      → All (λ n. str_eq n ifname ≡ false) names
      → IsFresh (attached_to coll ifname c).xdp_links names
  attached_to-IsFresh coll ifname c [] f d = tt
  attached_to-IsFresh coll ifname c (name ∷ names) (h, f) (e, d) =
      (attached_to-has_link coll name ifname c h e, attached_to-IsFresh coll ifname c names f d)

  attached_to-IsOwned :
      (coll : ℕ) (ifname : String) (c : State sys floats)
      → IsOwned l c
      → has_link ifname c.xdp_links ≡ false
      → IsOwned l (attached_to coll ifname c)
  unfolding attach_to_interface expect change
  attached_to-IsOwned coll ifname c b h = grind (arith, entries_of-put_link l)

  attach_each-IsOwned :
      (coll : ℕ) (names : List String) (c : State sys floats)
      → IsOwned l c
      → IsFresh c.xdp_links names
      → IsDistinct names
      → IsOwned l (attach_each sys floats coll names c)
  unfolding attach_each
  attach_each-IsOwned coll [] c b f d = b
  attach_each-IsOwned coll (name ∷ names) c b (h, f) (e, d) =
      attach_each-IsOwned coll names _ (attached_to-IsOwned coll name c b h)
        (attached_to-IsFresh coll name c names f e) d

  quiet-IsOwned : {c d : State sys floats} → IsQuiet c d → IsOwned l c → IsOwned l d
  quiet-IsOwned {c} {d} q b = record {
    owned =
        counted (is_attached l) (attached-is_link_call l)
        ∙ b.owned
        ∙ ap (λ n. n + entries_of l c.xdp_links)
            (sym (counted (is_closed l) (closed-is_link_call l)))
        ∙ ap (λ links. count_by (is_closed l) d.trace + entries_of l links) (sym q.same_links);
  }
    where
      counted :
          (p : Event → Bool)
          → ((event : Event) → p event ≡ true → is_link_call event ≡ true)
          → count_by p d.trace ≡ count_by p c.trace
      counted p only =
          sym (count-link_calls p d.trace only)
          ∙ ap (count_by p) q.none_made
          ∙ count-link_calls p c.trace only

  -- What `Start` is given: nothing is attached yet, and no interface is named twice.
  pub record IsPrepared (c : State sys floats) : Type 0 where
    pub owned : IsOwned l c
    pub no_links : c.xdp_links ≡ []
    pub distinct : IsDistinct c.interfaces

  quiet-IsPrepared : {c d : State sys floats} → IsQuiet c d → IsPrepared c → IsPrepared d
  quiet-IsPrepared q h = record {
    owned = quiet-IsOwned q h.owned;
    no_links = q.same_links ∙ h.no_links;
    distinct = rw (q.same_interfaces) h.distinct;
  }

  attach_interfaces-IsOwned :
      (coll : ℕ) (c : State sys floats)
      → IsPrepared c
      → IsOwned l (attach_each sys floats coll c.interfaces c)
  attach_interfaces-IsOwned coll c h =
      attach_each-IsOwned coll c.interfaces c h.owned (rw (h.no_links) (all_unlinked c.interfaces))
        h.distinct

  balance_of : (c : State sys floats) → IsPrepared c → IsOwned l c
  balance_of c h = h.owned

  run_with-IsOwned : (c : State sys floats) → IsOwned l c → IsOwned l (run_with sys floats c)
  run_with-IsOwned c h = ground arith

  with_maps-IsQuiet :
      (maps : String → Option ℕ) (c : State sys floats) → IsQuiet c (with_maps maps c)
  with_maps-IsQuiet maps c = ground arith

  make_maps_readable-IsQuiet :
      (c : State sys floats) → IsQuiet c (make_maps_readable sys floats c).1
  unfolding make_maps_readable attempt get_collector
  make_maps_readable-IsQuiet c = grind (arith, chmod_each-IsQuiet)

  make_maps_readable_ok : (c : State sys floats) → (make_maps_readable sys floats c).0 ≡ ok tt
  unfolding make_maps_readable attempt get_collector
  make_maps_readable_ok c = chmod_each_ok sys floats _ _ _

  attach_all-IsOwned :
      (coll : ℕ) (c : State sys floats) → IsPrepared c → IsOwned l (attach_all sys floats coll c).1
  unfolding attach_all get_collector change
  attach_all-IsOwned coll c h =
      let d : State sys floats = with_maps (sys.map_of coll) c in
      let e : State sys floats = (make_maps_readable sys floats d).1 in
      let q =
        quiet-IsPrepared (make_maps_readable-IsQuiet d)
          (quiet-IsPrepared (with_maps-IsQuiet (sys.map_of coll) c) h) in
      rw (make_maps_readable_ok d) (run_with-IsOwned _ (attach_interfaces-IsOwned coll e q))

  open_collection-IsQuiet :
      (spec : ℕ) (c : State sys floats) → IsQuiet c (open_collection sys floats spec c).1
  unfolding open_collection expect get_collector
  open_collection-IsQuiet spec c = ground arith

  load_and_attach-IsOwned :
      (c : State sys floats) → IsPrepared c → IsOwned l (load_and_attach sys floats c).1
  unfolding load_and_attach
  load_and_attach-IsOwned c h =
      bind_state IsPrepared (IsOwned l) _ _ c
        (quiet-IsPrepared (load_spec_from-IsQuiet sys floats _ _ c) h) balance_of
        λ spec t p.
          bind_state IsPrepared (IsOwned l) _ _ t
            (quiet-IsPrepared (open_collection-IsQuiet spec t) p) balance_of
            λ coll u q. attach_all-IsOwned coll u q

  pinned_or_load-IsOwned :
      (r : Result Error (Unit {0})) (c : State sys floats)
      → IsPrepared c
      → IsOwned l (pinned_or_load sys floats r c).1
  pinned_or_load-IsOwned (ok _) c h = run_with-IsOwned c h.owned
  pinned_or_load-IsOwned (err _) c h = load_and_attach-IsOwned c h

  start-IsOwned : (c : State sys floats) → IsPrepared c → IsOwned l (start sys floats c).1
  unfolding start expect get_collector
  start-IsOwned c h =
      bind_state IsPrepared (IsOwned l) (expect sys _ _) _ c (quiet-IsPrepared (ground arith) h)
        balance_of
        λ _ t p.
          pinned_or_load-IsOwned _ _ (quiet-IsPrepared (open_pinned_maps-IsQuiet sys floats t) p)

  -- Where nothing is attached before and no interface is named twice, `Stop` behind `Start` has closed
  -- each handle of a link as often as `Start` made it, however `Start` ends.
  pub start-stop :
      (c : State sys floats)
      → IsPrepared c
      → count_by (is_attached l) (stop sys floats (start sys floats c).1).trace
        ≡ count_by (is_closed l) (stop sys floats (start sys floats c).1).trace
  start-stop c h =
      let d : State sys floats = (start sys floats c).1 in
      omega (arith, (start-IsOwned c h).owned, stop-closes sys floats l d)
