-- ===== src/Reproducer/Tests.antt =====
-- The theorems on af_packet_reproducer at concrete data.
use net_perf_test.Common.{ℕ, ◌<◌, ◌≡◌, some, arith}
use net_perf_test.Common.Ints.{pos}
use net_perf_test.Reproducer.Sizes.{scaled, format_bytes}
use net_perf_test.Reproducer.Units.{IsUnit, format_bytes-IsUnit}

format_bytes-IsUnit_example :
    (div exp : ℕ) × (format_bytes 6 (pos 5000000) ≡ some (scaled 5000000 div exp))
    × IsUnit 5000000 div exp
    × (exp < 6)
format_bytes-IsUnit_example = format_bytes-IsUnit 5000000 (omega arith) (omega arith)
