-- ===== src/Reproducer/Files.antt =====
-- `getCaptureStats` of af_packet_reproducer/main.go, and the final statistics that `cleanupCaptures`
-- prints from it. A size is not negative, and the total has no bound.
use net_perf_test.Common.{
  ℕ, suc, ◌+◌, ◌<◌, ◌^◌, ◌≡◌, refl, ap, arith, Bool, true, false, Option, none, some, List, [], ◌∷◌,
  Result, ok, err, ltb, ltb→le, sum, Bool-cases, inl, inr, if◌then◌else◌, length, ◌⊎◌,
}
use net_perf_test.Common.Ints.{pos}
use net_perf_test.Reproducer.Sizes.{unit, Formatted, plain, format_bytes}
use net_perf_test.Reproducer.Units.{format_bytes-IsUnit}

-- An entry of the directory; `info` is the size that `Info` finds.
pub record Entry : Type 0 where
  pub is_dir : Bool
  pub info : Result ℕ ℕ

abbrev pub add_info : Result ℕ ℕ → ℕ × ℕ → ℕ × ℕ
add_info (ok size) (count, total) = (suc count, total + size)
add_info (err _) stats = stats

-- The loop over the entries, with the count and the total so far.
unfoldable pub count_entries : List Entry → ℕ × ℕ → ℕ × ℕ
count_entries [] stats = stats
count_entries (entry ∷ entries) stats =
    count_entries entries (if entry.is_dir then stats else add_info entry.info stats)

-- The argument is what `os.ReadDir` returns.
unfoldable pub get_capture_stats : Result ℕ (List Entry) → ℕ × ℕ
get_capture_stats (err _) = (0, 0)
get_capture_stats (ok entries) = count_entries entries (0, 0)

-- The lines behind "Final Statistics:": none, or the number of files and their size. The inner
-- `none` means that the fuel of `format_bytes` ran out.
abbrev shown : ℕ → Option Formatted → Option (ℕ × Option Formatted)
shown count size = some (count, size)

abbrev pub reported : (fuel count total : ℕ) → Option (ℕ × Option Formatted)
reported fuel count total =
    if ltb 0 count then shown count (format_bytes fuel (pos total)) else none

unfoldable pub final_statistics : ℕ → Result ℕ (List Entry) → Option (ℕ × Option Formatted)
final_statistics fuel listing =
    let (count, total) = get_capture_stats listing in reported fuel count total

-- The sizes of the files that are looked at.
abbrev pub with_size : Bool → Result ℕ ℕ → List ℕ → List ℕ
with_size true info rest = rest
with_size false (ok size) rest = size ∷ rest
with_size false (err _) rest = rest

abbrev pub sizes : List Entry → List ℕ
sizes [] = []
sizes (entry ∷ entries) = with_size entry.is_dir entry.info (sizes entries)

abbrev IsCounted : List Entry → ℕ × ℕ → Type 0
IsCounted entries stats =
    let found = count_entries entries stats in
    (found.0 ≡ stats.0 + length (sizes entries)) × (found.1 ≡ stats.1 + sum (sizes entries))

add_entry-IsCounted :
    (is_dir : Bool) (info : Result ℕ ℕ) (entries : List Entry) (stats : ℕ × ℕ)
    → ((seen : ℕ × ℕ) → IsCounted entries seen)
    → IsCounted (record { is_dir = is_dir; info = info } ∷ entries) stats
unfolding count_entries
add_entry-IsCounted true info entries stats h = h stats
add_entry-IsCounted false (ok size) entries stats h =
    let (c, t) = h (add_info (ok size) stats) in (omega (arith, c), omega (arith, t))
add_entry-IsCounted false (err _) entries stats h = h stats

count_entries-IsCounted : (entries : List Entry) (stats : ℕ × ℕ) → IsCounted entries stats
unfolding count_entries
count_entries-IsCounted [] stats = (omega arith, omega arith)
count_entries-IsCounted (entry ∷ entries) stats =
    add_entry-IsCounted entry.is_dir entry.info entries stats (count_entries-IsCounted entries)

-- Below 2 ^ 63 bytes six rounds of fuel are enough for the size.
formatted : (bytes : ℕ) → bytes < 2 ^ 63 → (f : Formatted) × (format_bytes 6 (pos bytes) ≡ some f)
unfolding format_bytes
formatted bytes h = elim (Bool-cases (ltb bytes unit)) [
  | inl e ↦ (plain (pos bytes), rw e refl)
  | inr e ↦ let (div, exp, r, _, _) = format_bytes-IsUnit bytes (ltb→le bytes unit e) h in (_, r)
]

-- Of a directory whose files have less than 2 ^ 63 bytes, the final statistics are the number of the
-- files whose size can be read, with a size in a unit, and they are left out just if there is none.
pub final_statistics-works :
    (entries : List Entry)
    → sum (sizes entries) < 2 ^ 63
    → ((sizes entries ≡ []) × (final_statistics 6 (ok entries) ≡ none))
      ⊎ (f : Formatted) × (format_bytes 6 (pos (sum (sizes entries))) ≡ some f)
        × (final_statistics 6 (ok entries) ≡ some (length (sizes entries), some f))
unfolding final_statistics get_capture_stats
final_statistics-works entries h =
    let stats = count_entries entries (0, 0) in
    let (c, t) = count_entries-IsCounted entries (0, 0) in
    let (f, e) = formatted (sum (sizes entries)) h in
    by_sizes (sizes entries) f stats (omega (arith, c)) (omega (arith, t)) e
  where
    by_sizes :
        (ns : List ℕ) (f : Formatted) (stats : ℕ × ℕ)
        → stats.0 ≡ length ns
        → stats.1 ≡ sum ns
        → format_bytes 6 (pos (sum ns)) ≡ some f
        → ((ns ≡ []) × (reported 6 stats.0 stats.1 ≡ none))
          ⊎ (g : Formatted) × (format_bytes 6 (pos (sum ns)) ≡ some g)
            × (reported 6 stats.0 stats.1 ≡ some (length ns, some g))
    by_sizes [] f stats c t e = inl (refl, rw c refl)
    by_sizes (n ∷ ns) f stats c t e =
        let positive : ltb 0 (suc (length ns)) ≡ true = ground arith in
        inr (f, e, rw (c, t, positive) (ap (shown (suc (length ns))) e))
