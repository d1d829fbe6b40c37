-- ===== src/Afpacket/ByteOrder.antt =====
-- What `htons` of afpacket-stress does to the bytes of a protocol number.
use net_perf_test.Common.{ℕ, ◌+◌, ◌*◌, ◌/◌, ◌%◌, ◌<◌, ◌≡◌, ap, ◌∙◌, arith}
use net_perf_test.Common.Bits.{high_and, high_or}
use net_perf_test.Afpacket.Sockets.{htons}
use Prim.Native.Nat.{bit_and, bit_or}

-- The two bytes change places.
htons-swaps : (i : ℕ) → i < 65536 → htons i ≡ i % 256 * 256 + i / 256
unfolding htons
htons-swaps i h =
    let shifted : i * 256 % 65536 ≡ i % 256 * 256 = omega arith in
    ap (λ n. bit_or (bit_and n 0xff00) (i / 256)) shifted
    ∙ ap (λ n. bit_or n (i / 256)) (high_and (i % 256) (omega arith))
    ∙ high_or (i % 256) (i / 256) (omega arith) (omega arith)

-- On a uint16 `htons` is its own inverse, and its result is a uint16 whose high byte is the low byte
-- of the argument, and the other way round.
pub htons-inverse :
    (i : ℕ)
    → i < 65536
    → (htons (htons i) ≡ i)
      × (htons i < 65536)
      × (htons i / 256 ≡ i % 256)
      × (htons i % 256 ≡ i / 256)
htons-inverse i h =
    let swapped = htons-swaps i h in
    let small : htons i < 65536 = omega (arith, swapped) in
    (
      omega (arith, swapped, htons-swaps (htons i) small),
      small,
      omega (arith, swapped),
      omega (arith, swapped),
    )
