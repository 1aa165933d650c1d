-- ===== src/Utils.antt =====
-- pkg/utils/utils.go and pkg/utils/backoff.go: error classes, the cleaning of text lines, the
-- longest streak, and the delay between retries.
pub mod Lines
pub mod Spaces
use netping.Common.{
  ℕ, ◌*◌, Str, codes, str_eq, is_empty, contains, to_lower, trim_space, Bool, true, false, ◌&&◌,
  ◌||◌, not, Option, none, some, List, [], ◌∷◌, ℤ, pos, negsuc, le_zero, is_zero, leb_ℤ, Time,
  Duration, millisecond, of_bits, to_bits, two64, ◌%◌, second, Floats, ltb, ◌==◌, if◌then◌else◌,
}
use netping.Stats.{LongestTime, new_longest_time}

-- An error, by what the program reads of it: its text, whether it is a `net.Error` that timed out,
-- and the number of the `syscall.Errno` inside an `*os.SyscallError`.
pub record GoError : Type 0 where
  pub text : Str
  pub is_timeout : Bool
  pub errno : Option ℕ

-- the `switch int(errno)` of `ClassifyError`, and `none` where no case fits
abbrev pub classify_errno : ℕ → Option Str
classify_errno n =
    if n == 10061 || n == 111
    then some (codes "Connection Refused")
    else if n == 10065 || n == 113
    then some (codes "Host Unreachable")
    else if n == 10051 || n == 101
    then some (codes "Network Unreachable")
    else if n == 10060 || n == 110
    then some (codes "Connection Timed Out")
    else none

-- the last `switch` of `ClassifyError`, over the text in lower case
pub classify_text : Str → Str
classify_text s =
    if contains (codes "refused") s
    then codes "Connection Refused"
    else if contains (codes "unreachable") s
    then codes "Host Unreachable"
    else if contains (codes "timeout") s || contains (codes "deadline exceeded") s
    then codes "Timeout"
    else if contains (codes "no such host") s || contains (codes "dns") s
    then codes "DNS Resolution Failed"
    else codes "Probe Failed"

abbrev pub or_classify_text : Option Str → Str → Str
or_classify_text (some class) text = class
or_classify_text none text = classify_text (to_lower text)

abbrev pub errno_class : Option ℕ → Option Str
errno_class none = none
errno_class (some n) = classify_errno n

-- ClassifyError
unfoldable pub classify_error : Option GoError → Str
unfolding classify_text
classify_error none = []
classify_error (some e) =
    if e.is_timeout then codes "Timeout" else or_classify_text (errno_class e.errno) e.text

-- SetLongestDuration
unfoldable pub set_longest_duration : Time → Duration → LongestTime → LongestTime
unfolding new_longest_time
set_longest_duration start duration longest =
    if start == 0 || is_zero duration
    then longest
    else let fresh = new_longest_time start duration in
      if longest.end_time == 0 || leb_ℤ longest.duration fresh.duration then fresh else longest

-- the characters that `SanitizeSingleLine` replaces by a space
unfoldable pub is_blank_char : ℕ → Bool
is_blank_char r =
    (r == b'\n' || r == b'\r' || r == 9 || r == 11 || r == 12 || (ltb r 32 && not (r == 27)))
    || r == 32

-- the loop of `SanitizeSingleLine`, with `lastWasSpace`
unfoldable pub collapse : Bool → Str → Str
collapse last_was_space [] = []
collapse last_was_space (r ∷ s) =
    let kept = r ∷ collapse false s in
    let skipped = collapse true s in
    if is_blank_char r then (if last_was_space then skipped else 32 ∷ skipped) else kept

-- SanitizeSingleLine
unfoldable pub sanitize_single_line : Str → Str
sanitize_single_line s = if is_empty s then [] else trim_space (collapse false s)

pub record BackoffConfig (F64 : Type 0) : Type 0 where
  pub initial_delay : Duration
  pub max_delay : Duration
  pub multiplier : F64
  pub jitter : Bool

-- the call of `crand.Int` in `CalculateBackoff`, which is made for a jitter only (the delay is positive
-- there: the initial delay and the multiplier are)
abbrev pub draw_if {ℓ} : {W : Type ℓ} → Bool → (W → Option ℕ × W) → W → Option ℕ × W
draw_if jitter draw w = if jitter then draw w else (none, w)

module _ {F32 F64 : Type 0} (fl : Floats F32 F64) where
  open fl use {lt64, le64, add64, mul64, div64, pow64, of_int64, trunc64, zero64}

  -- NanoToMillisecond
  unfoldable pub nano_to_millisecond : ℤ → F32
  nano_to_millisecond nano = fl.div32 (fl.of_int32 nano) (fl.of_int32 (pos millisecond))

  -- SecondsToDuration, whose product wraps
  unfoldable pub seconds_to_duration : F64 → Duration
  seconds_to_duration seconds =
      of_bits (to_bits (trunc64 (mul64 (of_int64 (pos 1000)) seconds)) * millisecond % two64)

  -- float64(n.Int64()) / 10000.0, or 0.5 where the random source fails
  abbrev rand_fraction : Option ℕ → F64
  rand_fraction none = div64 (of_int64 (pos 1)) (of_int64 (pos 2))
  rand_fraction (some n) = div64 (of_int64 (pos n)) (of_int64 (pos 10000))

  -- CalculateBackoff; `draw` is the result of `crand.Int`
  unfoldable pub calculate_backoff : Option ℕ → ℤ → BackoffConfig F64 → Duration
  calculate_backoff draw attempt cfg =
      let half = div64 (of_int64 (pos 1)) (of_int64 (pos 2)) in
      let initial_delay =
        if le_zero cfg.initial_delay then pos (50 * millisecond) else cfg.initial_delay in
      let multiplier =
        if le64 cfg.multiplier (of_int64 (pos 1)) then of_int64 (pos 2) else cfg.multiplier in
      let tries = if le_zero attempt then pos 0 else attempt in
      let grown = mul64 (of_int64 initial_delay) (pow64 multiplier (of_int64 tries)) in
      let delay =
        if not (le_zero cfg.max_delay) && lt64 (of_int64 cfg.max_delay) grown
        then of_int64 cfg.max_delay
        else grown in
      let jittered = mul64 delay (add64 half (mul64 half (rand_fraction draw))) in
      trunc64 (if cfg.jitter && lt64 zero64 delay then jittered else delay)
