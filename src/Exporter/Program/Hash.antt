-- ===== src/Exporter/Program/Hash.antt =====
-- `calculate_packet_hash` of ebpf-exporter/bpf/latency.c, on the bytes of a frame. A field of more
-- than one byte is loaded as on a machine that stores the low byte first.
use Prim.Native.Nat.{bit_xor}
use net_perf_test.Common.{
  ℕ, ◌+◌, ◌*◌, ◌%◌, Option, none, some, List, length, get_elem?, ltb, ◌==◌, ◌&&◌, ◌||◌,
  if◌then◌else◌,
}

abbrev or_zero : Option ℕ → ℕ
or_zero none = 0
or_zero (some b) = b

-- The byte at an offset that a test of the length covers.
abbrev pub byte_at : List ℕ → ℕ → ℕ
byte_at frame i = or_zero (get_elem? frame i)

abbrev pub half_at : List ℕ → ℕ → ℕ
half_at frame i = byte_at frame i + 256 * byte_at frame (i + 1)

abbrev pub word_at : List ℕ → ℕ → ℕ
word_at frame i = half_at frame i + 65536 * half_at frame (i + 2)

infixl 40 ◌^^◌
abbrev ◌^^◌ : ℕ → ℕ → ℕ
a ^^ b = bit_xor a b

-- The source address of the Ethernet header stands at 6, the destination at 0.
unfoldable pub ethernet_hash : List ℕ → ℕ
ethernet_hash frame = byte_at frame 6 ^^ byte_at frame 11 ^^ (byte_at frame 0 ^^ byte_at frame 5)

-- The ports of TCP (6) and UDP (17), behind a header of `ihl` words.
unfoldable pub with_ports : List ℕ → ℕ → ℕ
with_ports frame hash =
    let ports = 14 + byte_at frame 14 % 16 * 4 in
    if (byte_at frame 23 == 6 || byte_at frame 23 == 17) && ltb (ports + 3) (length frame)
    then hash ^^ half_at frame ports ^^ half_at frame (ports + 2)
    else hash

unfoldable pub ipv4_hash : List ℕ → ℕ → ℕ
ipv4_hash frame hash =
    if ltb (length frame) 34
    then hash
    else with_ports frame
        (hash ^^ word_at frame 26 ^^ word_at frame 30 ^^ byte_at frame 23 ^^ half_at frame 18)

unfoldable pub ipv6_hash : List ℕ → ℕ → ℕ
ipv6_hash frame hash =
    if ltb (length frame) 54
    then hash
    else hash
      ^^ (word_at frame 22 ^^ word_at frame 34)
      ^^ (word_at frame 38 ^^ word_at frame 50)
      ^^ byte_at frame 20

-- The protocol stands at 12, in network order.
unfoldable pub calculate_packet_hash : List ℕ → ℕ
calculate_packet_hash frame =
    let hash = ethernet_hash frame in
    let proto = byte_at frame 12 * 256 + byte_at frame 13 in
    if ltb (length frame) 14
    then 0
    else if proto == 0x0800
    then ipv4_hash frame hash
    else if proto == 0x86dd
    then ipv6_hash frame hash
    else hash
