-- ===== src/Reproducer/Sizes.antt =====
-- `formatBytes` of af_packet_reproducer/main.go.
use net_perf_test.Common.{ℕ, zero, suc, ◌+◌, ◌*◌, ◌/◌, Option, none, some, ltb, leb, if◌then◌else◌}
use net_perf_test.Common.Ints.{ℤ, pos, negsuc}

abbrev pub unit : ℕ
unit = 1024

-- The text: a number of bytes, or the bytes divided by `div`, with the letter of "KMGTPE" at `exp`.
pub data Formatted : Type 0 where
  plain : ℤ → Formatted
  scaled : ℕ → ℕ → ℕ → Formatted

-- `for n := bytes / unit; n >= unit; n /= unit`; `none` means that the fuel ran out.
unfoldable pub scale : ℕ → ℕ → ℕ → ℕ → Option (ℕ × ℕ)
scale zero n div exp = none
scale (suc fuel) n div exp =
    let rest = scale fuel (n / unit) (div * unit) (exp + 1) in
    if leb unit n then rest else some (div, exp)

abbrev pub finished : ℕ → Option (ℕ × ℕ) → Option Formatted
finished bytes none = none
finished bytes (some (div, exp)) = some (scaled bytes div exp)

-- The argument is an int64.
unfoldable pub format_bytes : ℕ → ℤ → Option Formatted
format_bytes fuel (negsuc n) = some (plain (negsuc n))
format_bytes fuel (pos bytes) =
    if ltb bytes unit
    then some (plain (pos bytes))
    else finished bytes (scale fuel (bytes / unit) unit 0)
