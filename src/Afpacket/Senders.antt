-- ===== src/Afpacket/Senders.antt =====
-- The senders of traffic-generator/cmd/afpacket-stress/main.go, whose loops are those of
-- traffic-gen. Each worker sends to a port of its own on the local host.
use net_perf_test.Common.{ℕ, ◌+◌, Bool, String, List, Result, if◌then◌else◌}
use net_perf_test.Common.Ints.{ℤ}
use net_perf_test.Traffic.Pacing.{pacing}
use net_perf_test.Traffic.Sender.{Sender, send_loop}

abbrev pub address : ℕ → String × ℕ
address worker = ("127.0.0.1", 9999 + worker)

-- `dial` says whether `net.Dial` works for an address, `write` gives the results of the writes.
module _ (dial : String × ℕ → Bool) (write : ℕ → Result ℕ ℕ) where
  unfoldable pub send_packets_max_rate : ℕ → List Bool → Sender → Sender
  send_packets_max_rate worker rounds s =
      let sent = send_loop write 100 rounds s in if dial (address worker) then sent else s

  unfoldable pub send_packets_rate_limited : ℕ → ℤ → List Bool → Sender → Sender
  send_packets_rate_limited worker target rounds s =
      let sent = send_loop write (pacing target).batch_size rounds s in
      if dial (address worker) then sent else s
