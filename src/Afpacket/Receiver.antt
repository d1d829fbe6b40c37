-- ===== src/Afpacket/Receiver.antt =====
-- `receivePackets` of traffic-generator/cmd/afpacket-stress/main.go.
use net_perf_test.Common.{ℕ, List, [], ◌∷◌, Result, ok, err, ltb, ◌==◌, ◌||◌, if◌then◌else◌}
use net_perf_test.Common.Words.{add64}

-- The counters of a socket and the global ones, which all sockets add to.
pub record Received : Type 0 where
  pub pkts_recv : ℕ
  pub bytes_recv : ℕ
  pub total_pkts : ℕ
  pub total_bytes : ℕ

-- What a round of the loop finds: a closed stop channel, or the answer of `Recvfrom`.
pub data Poll : Type 0 where
  stop : Poll
  recv : Result ℕ ℕ → Poll

abbrev pub count_packet : ℕ → Received → Received
count_packet n r =
    if ltb 0 n
    then record {
      pkts_recv = add64 r.pkts_recv 1;
      bytes_recv = add64 r.bytes_recv n;
      total_pkts = add64 r.total_pkts 1;
      total_bytes = add64 r.total_bytes n;
    }
    else r

-- The error numbers that mean "try again" are a parameter, as they are in the `syscall` package.
module _ (eagain ewouldblock : ℕ) where
  unfoldable pub receive_packets : List Poll → Received → Received
  receive_packets [] r = r
  receive_packets (stop ∷ polls) r = r
  receive_packets (recv (ok n) ∷ polls) r = receive_packets polls (count_packet n r)
  receive_packets (recv (err e) ∷ polls) r =
      let rest = receive_packets polls r in if e == eagain || e == ewouldblock then rest else r
