-- ===== src/Afpacket/Tests.antt =====
-- The theorems on afpacket-stress at concrete data.
use net_perf_test.Common.{sum_by}
use net_perf_test.Afpacket.Receivers.{
  polling, received, packet_added, bytes_added, shared_packet_added, Place, Sharing, start,
  poll_packet, add_packet, add_bytes, add_shared_packet, add_shared_bytes, Reach, at_start, later,
}
use net_perf_test.Afpacket.Receipts.{packets_of, bytes_of, quiet_totals}
use net_perf_test.Common.{inl}
use net_perf_test.Afpacket.Sockets.{htons}
use net_perf_test.Afpacket.ByteOrder.{htons-inverse}
use net_perf_test.Afpacket.Run.{Options}
use net_perf_test.Common.Ints.{pos}
use net_perf_test.Common.{◌<◌, ◌/◌}
use net_perf_test.Common.Words.{u64_mod}
use net_perf_test.Afpacket.Receiver.{Received, Poll, recv}
use net_perf_test.Afpacket.Softirq.{Texts}
use net_perf_test.Afpacket.Reception.{IsBounded}
use net_perf_test.Common.{List, ◌∷◌, true, str_eq, ◌%◌}
use net_perf_test.Common.{
  ℕ, ◌≡◌, Bool, false, none, some, [], Result, ok, err, refl, arith, if◌then◌else◌, ◌==◌, length,
}
use net_perf_test.Afpacket.Sockets.{Call, socket, bind, Trace, Pool, add_socket}
use net_perf_test.Afpacket.Progressive.{
  blocked, all_created, create_at_once, progressive_socket_creation,
}
use net_perf_test.Afpacket.Batches.{progressive_socket_creation-eq}

-- A kernel that refuses to bind the descriptor 4, which the second socket gets.
abbrev answer : Trace → Call → Result ℕ ℕ
answer t (socket _) = ok (if length t == 4 then 4 else 3)
answer t (bind fd _ _) = if fd == 4 then err 99 else ok 0
answer t _ = ok 0

abbrev empty : Pool answer
empty = record { sockets = []; active = 0; trace = [] }

abbrev never : ℕ → Bool
never i = false

progressive_socket_creation-eq_example :
    progressive_socket_creation (add_socket answer 2) (λ e p. false) never 4 3 2 empty
    ≡ some (blocked all_created (create_at_once (add_socket answer 2) 3 empty))
progressive_socket_creation-eq_example =
    progressive_socket_creation-eq (add_socket answer 2) (λ e p. false) never 4 3 2 empty
      (λ i. refl) (omega arith) (omega arith)

-- The fifth reading fails for good.
abbrev polls : List Poll
polls = recv (ok 60) ∷ recv (err 11) ∷ recv (ok 0) ∷ recv (ok 40) ∷ recv (err 9) ∷ recv (ok 8) ∷ []

abbrev nothing : Received
nothing = record { pkts_recv = 0; bytes_recv = 0; total_pkts = 7; total_bytes = 700 }

nothing-IsBounded : IsBounded 11 11 nothing
nothing-IsBounded = record {
  pkts_fit = omega arith;
  bytes_fit = omega arith;
  total_pkts_fit = omega arith;
  total_bytes_fit = omega arith;
}

-- Text functions that see one line with the column 7 out of range and the column 8 in it.
abbrev texts : Texts ℕ
texts = record {
  contains = λ line part. str_eq part "all";
  lines = λ text. text ∷ [];
  fields = λ line. "a" ∷ "b" ∷ "c" ∷ "d" ∷ "e" ∷ "f" ∷ "g" ∷ "big" ∷ "i" ∷ [];
  parse_float =
      λ field. if str_eq field "big" then some 400 else if str_eq field "i" then some 12 else none;
}

htons-inverse_example :
    (htons (htons 3) ≡ 3)
    × (htons 3 < 65536)
    × (htons 3 / 256 ≡ 3 % 256)
    × (htons 3 % 256 ≡ 3 / 256)
htons-inverse_example = htons-inverse 3 (omega arith)

-- The stop comes behind the first batch.
abbrev options : Options
options = record {
  socket_count = 3;
  target_pps = pos 1000;
  workers = pos 2;
  progressive_add = true;
  socket_batch = 2;
}

abbrev stops : ℕ → Bool
stops i = i == 1

-- One receiver, in a pool where the shared counters stand at `packets` and `bytes`.
abbrev pool_of : Place → (packets bytes shared_packets shared_bytes : ℕ) → Sharing
pool_of place packets bytes shared_packets shared_bytes = record {
  stopped = false;
  packets_recv = shared_packets;
  bytes_recv = shared_bytes;
  receivers = record { place = place; pkts_recv = packets; bytes_recv = bytes } ∷ [];
}

one_received : Reach (pool_of polling 1 60 1 60)
one_received =
    later (pool_of (shared_packet_added 60) 1 60 1 0) _
      (later (pool_of (bytes_added 60) 1 60 0 0) _
        (later (pool_of (packet_added 60) 1 0 0 0) _
          (later (pool_of (received 60) 0 0 0 0) _
            (later (pool_of polling 0 0 0 0) _ (later _ _ at_start start)
              (poll_packet [] [] _ 60 (omega arith) refl refl))
            (add_packet [] [] _ 60 refl refl))
          (add_bytes [] [] _ 60 refl refl))
        (add_shared_packet [] [] _ 60 refl refl))
      (add_shared_bytes [] [] _ 60 refl refl)

quiet_totals_example :
    (◌≡◌ {A = ℕ} 1 (sum_by packets_of ((pool_of polling 1 60 1 60).receivers) % u64_mod))
    × (◌≡◌ {A = ℕ} 60 (sum_by bytes_of ((pool_of polling 1 60 1 60).receivers) % u64_mod))
quiet_totals_example = quiet_totals (pool_of polling 1 60 1 60) one_received (inl refl, tt)
