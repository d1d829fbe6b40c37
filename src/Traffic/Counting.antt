-- ===== src/Traffic/Counting.antt =====
-- What the senders of traffic-generator/cmd/traffic-gen/main.go send and count.
use net_perf_test.Common.{
  ℕ, zero, suc, ◌+◌, ◌*◌, ◌%◌, ◌<◌, ◌≡◌, refl, sym, ap, ◌∙◌, arith, Bool, true, false, List, [],
  ◌∷◌, some, Result, ok, err, length, get_elem?,
}
use native.Mathlib.Nat.{suc-add, zero-mul, zero-add}
use net_perf_test.Common.Words.{u64_mod}
use net_perf_test.Traffic.Sender.{data_from, packet_data, Sender, send_one, send_burst, send_loop}

length-data_from : (worker i n : ℕ) → length (data_from worker i n) ≡ n
unfolding data_from
length-data_from worker i zero = refl
length-data_from worker i (suc n) = ap suc (length-data_from worker (suc i) n)

get_elem?-data_from :
    (worker i n j : ℕ) → j < n → get_elem? (data_from worker i n) j ≡ some ((i + j + worker) % 256)
unfolding data_from
get_elem?-data_from worker i zero j h = elim h [ ]
get_elem?-data_from worker i (suc n) zero h = ap some (omega arith)
get_elem?-data_from worker i (suc n) (suc j) h =
    get_elem?-data_from worker (suc i) n j (omega arith) ∙ ap some (omega arith)

-- A worker's packet has the size asked for.
pub length-packet_data : (worker size : ℕ) → length (packet_data worker size) ≡ size
unfolding packet_data
length-packet_data worker size = length-data_from worker 0 size

-- Byte `j` of a worker's packet is the low byte of `j` and the worker's number added up.
pub get_elem?-packet_data :
    (worker size j : ℕ)
    → j < size
    → get_elem? (packet_data worker size) j ≡ some ((j + worker) % 256)
unfolding packet_data
get_elem?-packet_data worker size j h =
    get_elem?-data_from worker 0 size j h ∙ ap some (omega arith)

module _ (write : ℕ → Result ℕ ℕ) where
  -- How many of the `n` writes from number `i` on work, and how many bytes they write.
  abbrev pub writes_ok : ℕ → ℕ → ℕ
  writes_ok i zero = 0
  writes_ok i (suc n) = elim (write i) [
    | ok _ ↦ suc (writes_ok (suc i) n)
    | err _ ↦ writes_ok (suc i) n
  ]

  abbrev pub bytes_ok : ℕ → ℕ → ℕ
  bytes_ok i zero = 0
  bytes_ok i (suc n) = elim (write i) [ ok k ↦ k + bytes_ok (suc i) n | err _ ↦ bytes_ok (suc i) n ]

  send_burst_counts :
      (n : ℕ) (s : Sender)
      → s.counters.packets_sent < u64_mod
      → s.counters.bytes_sent < u64_mod
      → ((send_burst write n s).counters.packets_sent
          ≡ (s.counters.packets_sent + writes_ok s.writes n) % u64_mod)
        × ((send_burst write n s).counters.bytes_sent
            ≡ (s.counters.bytes_sent + bytes_ok s.writes n) % u64_mod)
        × ((send_burst write n s).writes ≡ s.writes + n)
  unfolding send_burst
  send_burst_counts zero s p b = (omega arith, omega arith, omega arith)
  send_burst_counts (suc n) s p b = ground (arith, send_burst_counts n (send_one write s))

  -- Rounds of ticks before the stop.
  abbrev pub ticks : List Bool → ℕ
  ticks [] = 0
  ticks (true ∷ rounds) = 0
  ticks (false ∷ rounds) = suc (ticks rounds)

  send_burst-add :
      (m n : ℕ) (s : Sender)
      → send_burst write n (send_burst write m s) ≡ send_burst write (m + n) s
  unfolding send_burst
  send_burst-add zero n s = sym (ap (λ k. send_burst write k s) (zero-add n))
  send_burst-add (suc m) n s =
      send_burst-add m n (send_one write s) ∙ sym (ap (λ k. send_burst write k s) (suc-add m n))

  send_loop-eq :
      (batch : ℕ) (rounds : List Bool) (s : Sender)
      → send_loop write batch rounds s ≡ send_burst write (ticks rounds * batch) s
  unfolding send_loop send_burst
  send_loop-eq batch [] s = sym (ap (λ k. send_burst write k s) (zero-mul batch))
  send_loop-eq batch (true ∷ rounds) s = sym (ap (λ k. send_burst write k s) (zero-mul batch))
  send_loop-eq batch (false ∷ rounds) s =
      send_loop-eq batch rounds (send_burst write batch s)
      ∙ send_burst-add batch (ticks rounds * batch) s
      ∙ ap (λ k. send_burst write k s) regroup
    where
      regroup : batch + ticks rounds * batch ≡ suc (ticks rounds) * batch
      regroup = omega arith

  -- From counters below 2 ^ 64, and up to the stop, a worker writes a batch for each tick and nothing behind it. Its counters then
  -- stand at the number of writes that worked, and at the number of bytes that those wrote, both
  -- wrapped at 2 ^ 64; a write that fails is not counted.
  pub send_loop_counts :
      (batch : ℕ) (rounds : List Bool) (s : Sender)
      → s.counters.packets_sent < u64_mod
      → s.counters.bytes_sent < u64_mod
      → let n = ticks rounds * batch in
        let t = send_loop write batch rounds s in
        (t.counters.packets_sent ≡ (s.counters.packets_sent + writes_ok s.writes n) % u64_mod)
        × (t.counters.bytes_sent ≡ (s.counters.bytes_sent + bytes_ok s.writes n) % u64_mod)
        × (t.writes ≡ s.writes + n)
  send_loop_counts batch rounds s p b =
      rw (send_loop-eq batch rounds s) (send_burst_counts (ticks rounds * batch) s p b)
