-- ===== src/Afpacket/Receipts.antt =====
-- The counters of the receivers of afpacket-stress, in any order of their steps.
use net_perf_test.Common.{
  ℕ, ◌+◌, ◌%◌, ◌<◌, ◌≡◌, refl, arith, List, [], ◌∷◌, ◌++◌, ◌⊎◌, inl, inr, All, sum_by, sum_by_move,
}
use net_perf_test.Common.Words.{u64_mod}
use net_perf_test.Afpacket.Receivers.{
  Place, polling, ended, received, packet_added, bytes_added, shared_packet_added, Receiver,
  Sharing, with_receiver, at_place, Step, close_stop, start, poll_nothing, poll_stop, poll_error,
  poll_packet, add_packet, add_bytes, add_shared_packet, add_shared_bytes, Reach, at_start, later,
}

-- What the socket of a receiver has counted and the shared counters have not.
abbrev pub packets_ahead : Place → ℕ
packets_ahead (packet_added n) = 1
packets_ahead (bytes_added n) = 1
packets_ahead _ = 0

abbrev pub bytes_ahead : Place → ℕ
bytes_ahead (bytes_added n) = n
bytes_ahead (shared_packet_added n) = n
bytes_ahead _ = 0

abbrev pub packets_of : Receiver → ℕ
packets_of r = r.pkts_recv

abbrev pub bytes_of : Receiver → ℕ
bytes_of r = r.bytes_recv

abbrev pub packets_open : Receiver → ℕ
packets_open r = packets_ahead r.place

abbrev pub bytes_open : Receiver → ℕ
bytes_open r = bytes_ahead r.place

-- The sockets' counters add up to the shared ones and what is open, modulo 2 ^ 64.
pub record IsShared (p : Sharing) : Type 0 where
  pub packets :
      sum_by packets_of p.receivers % u64_mod
      ≡ (p.packets_recv + sum_by packets_open p.receivers) % u64_mod
  pub bytes :
      sum_by bytes_of p.receivers % u64_mod
      ≡ (p.bytes_recv + sum_by bytes_open p.receivers) % u64_mod
  pub packets_fit : p.packets_recv < u64_mod
  pub bytes_fit : p.bytes_recv < u64_mod

module _ (p : Sharing) (before behind : List Receiver) (r t : Receiver)
    (e : p.receivers ≡ before ++ r ∷ behind) where
  -- A receiver goes from `r` to `t`, and the shared counters to `packets` and `bytes`.
  moved-IsShared :
      (packets bytes : ℕ)
      → packets < u64_mod
      → bytes < u64_mod
      → (packets + packets_open t + packets_of r) % u64_mod
        ≡ (p.packets_recv + packets_open r + packets_of t) % u64_mod
      → (bytes + bytes_open t + bytes_of r) % u64_mod
        ≡ (p.bytes_recv + bytes_open r + bytes_of t) % u64_mod
      → IsShared p
      → IsShared
          (record (with_receiver before behind t p) { packets_recv = packets; bytes_recv = bytes })
  moved-IsShared packets bytes fit fit_bytes same same_bytes h = record {
    packets = omega (
      arith,
      same,
      h.packets,
      sum_by_move packets_of p.receivers before behind r t e,
      sum_by_move packets_open p.receivers before behind r t e,
    );
    bytes = omega (
      arith,
      same_bytes,
      h.bytes,
      sum_by_move bytes_of p.receivers before behind r t e,
      sum_by_move bytes_open p.receivers before behind r t e,
    );
    packets_fit = fit;
    bytes_fit = fit_bytes;
  }

-- A move that changes only the place, with as much open as before.
placed-IsShared :
    (p : Sharing) (before behind : List Receiver) (r : Receiver) (place : Place)
    → p.receivers ≡ before ++ r ∷ behind
    → packets_ahead place ≡ packets_ahead r.place
    → bytes_ahead place ≡ bytes_ahead r.place
    → IsShared p
    → IsShared (with_receiver before behind (at_place place r) p)
placed-IsShared p before behind r place e same same_bytes h =
    moved-IsShared p before behind r (at_place place r) e p.packets_recv p.bytes_recv h.packets_fit
      h.bytes_fit (omega (arith, same)) (omega (arith, same_bytes)) h

Step-IsShared : (p q : Sharing) → Step p q → IsShared p → IsShared q
Step-IsShared p _ close_stop h = record {
  packets = h.packets;
  bytes = h.bytes;
  packets_fit = h.packets_fit;
  bytes_fit = h.bytes_fit;
}
Step-IsShared p _ start h = record {
  packets = omega (arith, h.packets);
  bytes = omega (arith, h.bytes);
  packets_fit = h.packets_fit;
  bytes_fit = h.bytes_fit;
}
Step-IsShared p _ poll_nothing h = h
Step-IsShared p _ (poll_stop before behind r _ at e) h =
    placed-IsShared p before behind r ended e (rw at refl) (rw at refl) h
Step-IsShared p _ (poll_error before behind r at e) h =
    placed-IsShared p before behind r ended e (rw at refl) (rw at refl) h
Step-IsShared p _ (poll_packet before behind r n _ at e) h =
    placed-IsShared p before behind r (received n) e (rw at refl) (rw at refl) h
Step-IsShared p _ (add_packet before behind r n at e) h =
    moved-IsShared p before behind r _ e p.packets_recv p.bytes_recv h.packets_fit h.bytes_fit
      (rw at (omega arith)) (rw at (omega arith)) h
Step-IsShared p _ (add_bytes before behind r n at e) h =
    moved-IsShared p before behind r _ e p.packets_recv p.bytes_recv h.packets_fit h.bytes_fit
      (rw at (omega arith)) (rw at (omega arith)) h
Step-IsShared p _ (add_shared_packet before behind r n at e) h =
    moved-IsShared p before behind r _ e _ p.bytes_recv (omega arith) h.bytes_fit
      (rw at (omega arith)) (rw at (omega arith)) h
Step-IsShared p _ (add_shared_bytes before behind r n at e) h =
    moved-IsShared p before behind r _ e p.packets_recv _ h.packets_fit (omega arith)
      (rw at (omega arith)) (rw at (omega arith)) h

pub Reach-IsShared : (p : Sharing) → Reach p → IsShared p
Reach-IsShared _ at_start = record {
  packets = refl;
  bytes = refl;
  packets_fit = omega arith;
  bytes_fit = omega arith;
}
Reach-IsShared _ (later p q r step) = Step-IsShared p q step (Reach-IsShared p r)

-- Between two packets, or at its end.
abbrev pub IsQuiet : Receiver → Type 0
IsQuiet r = (r.place ≡ polling) ⊎ (r.place ≡ ended)

quiet-open :
    (rs : List Receiver)
    → All IsQuiet rs
    → (sum_by packets_open rs ≡ 0) × (sum_by bytes_open rs ≡ 0)
quiet-open [] h = (refl, refl)
quiet-open (r ∷ rs) (inl at, h) =
    let (p, b) = quiet-open rs h in (rw at (omega (arith, p)), rw at (omega (arith, b)))
quiet-open (r ∷ rs) (inr at, h) =
    let (p, b) = quiet-open rs h in (rw at (omega (arith, p)), rw at (omega (arith, b)))

-- Whenever no receiver is in the middle of a packet, the shared counters are the sums of the
-- sockets' counters modulo 2 ^ 64, in whatever order the sockets were added and took their steps.
pub quiet_totals :
    (p : Sharing)
    → Reach p
    → All IsQuiet p.receivers
    → (p.packets_recv ≡ sum_by packets_of p.receivers % u64_mod)
      × (p.bytes_recv ≡ sum_by bytes_of p.receivers % u64_mod)
quiet_totals p r quiet =
    let h = Reach-IsShared p r in
    let (none, no_bytes) = quiet-open p.receivers quiet in
    (omega (arith, h.packets, h.packets_fit, none), omega (arith, h.bytes, h.bytes_fit, no_bytes))
