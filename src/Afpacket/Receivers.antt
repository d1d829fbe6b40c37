-- ===== src/Afpacket/Receivers.antt =====
-- The goroutines `receivePackets` of traffic-generator/cmd/afpacket-stress/main.go at the same time:
-- each adds to the counters of its socket and to the two that all share. Each step is one that the
-- Go scheduler may take: a look at the stop channel with a call of `Recvfrom`, or one atomic addition.
use net_perf_test.Common.{ℕ, ◌<◌, ◌≡◌, Bool, true, false, List, [], ◌∷◌, ◌++◌}
use net_perf_test.Common.Words.{add64}

-- Where a receiver stands: before its poll, at its end, or with a packet of so many bytes, with
-- none, one, two or three of the four additions made.
pub data Place : Type 0 where
  polling ended : Place
  received packet_added bytes_added shared_packet_added : ℕ → Place

pub record Receiver : Type 0 where
  pub place : Place
  pub pkts_recv : ℕ
  pub bytes_recv : ℕ

pub record Sharing : Type 0 where
  pub stopped : Bool
  pub packets_recv : ℕ
  pub bytes_recv : ℕ
  pub receivers : List Receiver

abbrev pub with_receiver : List Receiver → List Receiver → Receiver → Sharing → Sharing
with_receiver before behind r p = record p { receivers = before ++ r ∷ behind }

abbrev pub at_place : Place → Receiver → Receiver
at_place place r = record r { place = place }

abbrev pub fresh : Receiver
fresh = record { place = polling; pkts_recv = 0; bytes_recv = 0 }

-- A step; the others stand `before` and `behind` the receiver that takes it. A poll that finds an
-- empty packet or an error that means "try again" changes nothing.
pub data Step (p : Sharing) : Sharing → Type 0 where
  close_stop : Step p (record p { stopped = true })
  start : Step p (record p { receivers = fresh ∷ p.receivers })
  poll_nothing : Step p p
  poll_stop :
      (before behind : List Receiver) (r : Receiver)
      → p.stopped ≡ true
      → r.place ≡ polling
      → p.receivers ≡ before ++ r ∷ behind
      → Step p (with_receiver before behind (at_place ended r) p)
  poll_error :
      (before behind : List Receiver) (r : Receiver)
      → r.place ≡ polling
      → p.receivers ≡ before ++ r ∷ behind
      → Step p (with_receiver before behind (at_place ended r) p)
  poll_packet :
      (before behind : List Receiver) (r : Receiver) (n : ℕ)
      → 0 < n
      → r.place ≡ polling
      → p.receivers ≡ before ++ r ∷ behind
      → Step p (with_receiver before behind (at_place (received n) r) p)
  add_packet :
      (before behind : List Receiver) (r : Receiver) (n : ℕ)
      → r.place ≡ received n
      → p.receivers ≡ before ++ r ∷ behind
      → Step p (
          with_receiver before behind
            (record r { place = packet_added n; pkts_recv = add64 r.pkts_recv 1 })
            p)
  add_bytes :
      (before behind : List Receiver) (r : Receiver) (n : ℕ)
      → r.place ≡ packet_added n
      → p.receivers ≡ before ++ r ∷ behind
      → Step p (
          with_receiver before behind
            (record r { place = bytes_added n; bytes_recv = add64 r.bytes_recv n })
            p)
  add_shared_packet :
      (before behind : List Receiver) (r : Receiver) (n : ℕ)
      → r.place ≡ bytes_added n
      → p.receivers ≡ before ++ r ∷ behind
      → Step p (record (with_receiver before behind (at_place (shared_packet_added n) r) p) {
        packets_recv = add64 p.packets_recv 1;
      })
  add_shared_bytes :
      (before behind : List Receiver) (r : Receiver) (n : ℕ)
      → r.place ≡ shared_packet_added n
      → p.receivers ≡ before ++ r ∷ behind
      → Step p (record (with_receiver before behind (at_place polling r) p) {
        bytes_recv = add64 p.bytes_recv n;
      })

abbrev pub no_receivers : Sharing
no_receivers = record { stopped = false; packets_recv = 0; bytes_recv = 0; receivers = [] }

-- What is reached from the start by steps in any order.
pub data Reach : Sharing → Type 0 where
  at_start : Reach no_receivers
  later : (p q : Sharing) → Reach p → Step p q → Reach q
