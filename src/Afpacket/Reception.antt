-- ===== src/Afpacket/Reception.antt =====
-- What `receivePackets` and the softirq monitor of
-- traffic-generator/cmd/afpacket-stress/main.go compute.
use net_perf_test.Common.{
  ℕ, suc, ◌+◌, ◌%◌, ◌<◌, ◌≡◌, refl, arith, Bool, true, false, Option, none, some, List, [], ◌∷◌,
  String, Result, ok, err, ltb, ◌==◌, ◌||◌, if◌then◌else◌, ◌⊎◌, inl, inr, Bool-cases, leb, not,
  ◌&&◌, length, sum,
}
use net_perf_test.Common.Words.{u64_mod}
use net_perf_test.Common.Floats.{Floats}
use net_perf_test.Afpacket.Receiver.{Received, Poll, stop, recv, count_packet, receive_packets}
use net_perf_test.Afpacket.Softirq.{
  Texts, percent_in_fields, percent_in_lines, get_softirq_percent, is_percent, percent_of, or_next,
  or_zero,
}

module _ (eagain ewouldblock : ℕ) where
  -- The sizes of the packets that come before the stop or the first other error.
  abbrev pub sizes : List Poll → List ℕ
  sizes [] = []
  sizes (stop ∷ polls) = []
  sizes (recv (ok n) ∷ polls) = let rest = sizes polls in if ltb 0 n then n ∷ rest else rest
  sizes (recv (err e) ∷ polls) =
      let rest = sizes polls in if e == eagain || e == ewouldblock then rest else []

  pub record IsBounded (r : Received) : Type 0 where
    pub pkts_fit : r.pkts_recv < u64_mod
    pub bytes_fit : r.bytes_recv < u64_mod
    pub total_pkts_fit : r.total_pkts < u64_mod
    pub total_bytes_fit : r.total_bytes < u64_mod

  count_packet-IsBounded : (n : ℕ) (r : Received) → IsBounded r → IsBounded (count_packet n r)
  count_packet-IsBounded n r b = ground arith

  -- From counters below 2 ^ 64, the socket's counters and the global ones grow by the packets that
  -- are not empty and by their bytes, modulo 2 ^ 64, up to the stop or to the first error that does
  -- not mean "try again".
  pub receive_packets_counts :
      (polls : List Poll) (r : Received)
      → IsBounded r
      → let s = receive_packets eagain ewouldblock polls r in
        (s.pkts_recv ≡ (r.pkts_recv + length (sizes polls)) % u64_mod)
        × (s.bytes_recv ≡ (r.bytes_recv + sum (sizes polls)) % u64_mod)
        × (s.total_pkts ≡ (r.total_pkts + length (sizes polls)) % u64_mod)
        × (s.total_bytes ≡ (r.total_bytes + sum (sizes polls)) % u64_mod)
  unfolding receive_packets
  receive_packets_counts [] r b = (
    omega (arith, b.pkts_fit),
    omega (arith, b.bytes_fit),
    omega (arith, b.total_pkts_fit),
    omega (arith, b.total_bytes_fit),
  )
  receive_packets_counts (stop ∷ polls) r b = (
    omega (arith, b.pkts_fit),
    omega (arith, b.bytes_fit),
    omega (arith, b.total_pkts_fit),
    omega (arith, b.total_bytes_fit),
  )
  receive_packets_counts (recv (ok n) ∷ polls) r b =
      ground (arith, receive_packets_counts polls (count_packet n r) (count_packet-IsBounded n r b))
  receive_packets_counts (recv (err e) ∷ polls) r b =
      ground (arith, receive_packets_counts polls r b)

module _ (floats : Floats) (texts : Texts floats.Float) where
  open floats use {Float, of_uint}

  -- A percentage that was found passes the test of the range.
  abbrev InRange : Option Float → Type 0
  InRange none = Unit
  InRange (some v) = is_percent floats texts v ≡ true

  percent_of-InRange : (o : Option Float) → InRange (percent_of floats texts o)
  percent_of-InRange none = tt
  percent_of-InRange (some v) = elim (Bool-cases (is_percent floats texts v)) [
    | inl p ↦ rw p p
    | inr p ↦ rw p tt
  ]

  or_next-InRange :
      (o next : Option Float) → InRange o → InRange next → InRange (or_next floats texts o next)
  or_next-InRange none next h k = k
  or_next-InRange (some v) next h k = h

  if-InRange : (b : Bool) (o : Option Float) → InRange o → InRange (if b then o else none)
  if-InRange true o h = h
  if-InRange false o h = tt

  percent_in_fields-InRange :
      (i : ℕ) (l : List String) → InRange (percent_in_fields floats texts i l)
  unfolding percent_in_fields
  percent_in_fields-InRange i [] = tt
  percent_in_fields-InRange i (field ∷ l) =
      or_next-InRange _ _ (if-InRange (leb 6 i && leb i 8) _ (percent_of-InRange _))
        (percent_in_fields-InRange (suc i) l)

  percent_in_lines-InRange : (l : List String) → InRange (percent_in_lines floats texts l)
  unfolding percent_in_lines
  percent_in_lines-InRange [] = tt
  percent_in_lines-InRange (line ∷ l) =
      or_next-InRange _ _
        (if-InRange (texts.contains line "all" && not (texts.contains line "CPU")) _
          (percent_in_fields-InRange 0 _))
        (percent_in_lines-InRange l)

  or_zero_range :
      (o : Option Float)
      → InRange o
      → (or_zero floats texts o ≡ of_uint 0)
        ⊎ (is_percent floats texts (or_zero floats texts o) ≡ true)
  or_zero_range none h = inl refl
  or_zero_range (some v) h = inr h

  -- The percentage is the 0 of a failed reading, or passes the test of the range.
  pub get_softirq_percent_range :
      (output : Result ℕ String)
      → (get_softirq_percent floats texts output ≡ of_uint 0)
        ⊎ (is_percent floats texts (get_softirq_percent floats texts output) ≡ true)
  unfolding get_softirq_percent
  get_softirq_percent_range (err _) = inl refl
  get_softirq_percent_range (ok output) =
      or_zero_range _ (percent_in_lines-InRange (texts.lines output))
