-- ===== src/Traffic/Sender.antt =====
-- The senders of traffic-generator/cmd/traffic-gen/main.go, one worker at a time.
use net_perf_test.Common.{ℕ, zero, suc, ◌+◌, ◌%◌, Bool, true, false, List, [], ◌∷◌, Result, ok, err}
use net_perf_test.Common.Words.{add64}
use net_perf_test.Common.Ints.{ℤ}
use net_perf_test.Traffic.Pacing.{pacing}

-- `packetsSent` and `bytesSent`. The workers add to them atomically.
pub record Counters : Type 0 where
  pub packets_sent : ℕ
  pub bytes_sent : ℕ

-- `data[i] = byte((i + workerID) % 256)`, from index `i` on.
unfoldable pub data_from : ℕ → ℕ → ℕ → List ℕ
data_from worker i zero = []
data_from worker i (suc left) = ((i + worker) % 256) ∷ data_from worker (suc i) left

unfoldable pub packet_data : ℕ → ℕ → List ℕ
unfolding data_from
packet_data worker size = data_from worker 0 size

-- One `conn.Write` by its result: only a write without an error is counted.
abbrev pub count_write : Result ℕ ℕ → Counters → Counters
count_write (ok n) c = record {
  packets_sent = add64 c.packets_sent 1;
  bytes_sent = add64 c.bytes_sent n;
}
count_write (err _) c = c

-- A worker's counters, and how many packets it has tried to send.
pub record Sender : Type 0 where
  pub counters : Counters
  pub writes : ℕ

-- `write` gives the result of each write of the worker's connection in turn.
module _ (write : ℕ → Result ℕ ℕ) where
  abbrev pub send_one : Sender → Sender
  send_one s = record { counters = count_write (write s.writes) s.counters; writes = suc s.writes }

  -- `for i := 0; i < batchSize; i++ { ... }`
  unfoldable pub send_burst : ℕ → Sender → Sender
  send_burst zero s = s
  send_burst (suc n) s = send_burst n (send_one s)

  -- What the `select` of a worker finds: a closed stop channel, or a tick.
  unfoldable pub send_loop : ℕ → List Bool → Sender → Sender
  send_loop batch [] s = s
  send_loop batch (stopped ∷ rounds) s =
      let rest = send_loop batch rounds (send_burst batch s) in
      elim stopped [ true ↦ s | false ↦ rest ]

  -- The argument `dialed` says whether `net.Dial` worked; without it nothing is sent.
  unfoldable pub send_packets_max_rate : Bool → List Bool → Sender → Sender
  send_packets_max_rate dialed rounds s = elim dialed [ true ↦ send_loop 100 rounds s | false ↦ s ]

  unfoldable pub send_packets_rate_limited : Bool → ℤ → List Bool → Sender → Sender
  send_packets_rate_limited dialed target rounds s = elim dialed [
    | true ↦ send_loop ((pacing target).batch_size) rounds s
    | false ↦ s
  ]
