-- ===== src/Multi.antt =====
-- pkg/probers/multi_prober.go: `Run`, with a goroutine for each worker. A worker is a state machine
-- over the points at which it can be interrupted, and the goroutines run in any order. The channel
-- of the semaphore is the number of its elements. The context's cancellation and the stop signal are
-- one flag. What a ping answers and what the clock says is arbitrary in each step.
pub mod Slots
pub mod Progress
pub mod Ends
pub mod Runs
use netping.Common.{
  ℕ, zero, suc, ◌+◌, ◌-◌, ◌≡◌, Str, codes, str_eq, is_empty, to_upper, itoa, Bool, true, false,
  ◌&&◌, ◌||◌, not, Option, none, some, List, [], ◌∷◌, ◌++◌, map, Time, Duration, Addr, is_valid,
  Floats, inc, is_some, ltb, leb, ◌==◌, if◌then◌else◌,
}
use netping.Consts.{Protocol, protocol_str}
use netping.Stats.{Statistics, record_success, record_failure}
use netping.Utils.{GoError, nano_to_millisecond}
use netping.Prober.{ProbeResult, Attempt, rounds}

-- TargetWorker, without its pinger and its statistics
pub record TargetWorker : Type 0 where
  pub target : Str
  pub host : Str
  pub ip : Addr
  pub port : ℕ
  pub protocol : Protocol
  pub service_name : Str

-- MultiProberOptions, without the callback, which cannot change the course of a worker
pub record MultiProberOptions (F64 : Type 0) : Type 0 where
  pub probe_count : ℕ
  pub interval : Duration
  pub timeout : Duration
  pub concurrency : ℕ
  pub show_diags : Bool
  pub no_color : Bool
  pub quiet_mode : Bool
  pub with_timestamp : Bool
  pub show_source_address : Bool
  pub show_failures_only : Bool
  pub max_latency : F64
  pub max_consecutive_fails : ℕ
  pub retries : ℕ
  pub initial_retry_backoff : Duration
  pub max_retry_backoff : Duration
  pub retry_jitter : Bool
  pub hide_live_logs : Bool

-- Where a goroutine stands: at the first `select` of its loop, at the semaphore, in the ping of an
-- attempt, in the sleep after a failed attempt, before it gives its slot back, before it records the
-- outcome, at the last `select`, or returned.
pub data Phase (F32 : Type 0) : Type 0 where
  checking acquiring : Phase F32
  probing : ℕ → Phase F32
  backing : ℕ → Attempt F32 → Phase F32
  releasing : Attempt F32 → Phase F32
  recording : Attempt F32 → Phase F32
  pausing returned : Phase F32

-- A goroutine: where it stands, `seq`, and the statistics of its target.
pub record Worker (F32 F64 : Type 0) : Type 0 where
  pub phase : Phase F32
  pub seq : ℕ
  pub stats : Statistics F32 F64

-- formatTargetBadge; `ip_string` is netip.Addr.String
unfoldable pub format_target_badge : (Addr → Str) → TargetWorker → Str
format_target_badge ip_string w =
    let shown = to_upper (protocol_str w.protocol) in
    let proto = if is_empty shown then codes "TCP" else shown in
    let host = if is_empty w.host && not (is_empty w.target) then w.target else w.host in
    let ip = ip_string w.ip in
    let name = if is_valid w.ip && (is_empty host || str_eq host ip) then ip else host in
    let place = if ltb 0 w.port then name ++ (codes ":" ++ itoa w.port) else name in
    let inside =
      if is_valid w.ip && not (is_empty host || str_eq host ip)
      then ip ++ (codes "," ++ proto)
      else proto in
    codes "[" ++ (place ++ (codes " (" ++ (inside ++ codes ")]")))

-- errMsg
abbrev error_message : Option GoError → Str
error_message none = []
error_message (some e) = e.text

-- `sem <- struct{}{}` goes through if there is no semaphore or room in it
abbrev pub has_room : {F64 : Type 0} → MultiProberOptions F64 → ℕ → Bool
has_room o slots = o.concurrency == 0 || ltb slots o.concurrency

-- the elements of the channel after a send, and after a receive
abbrev pub slot_taken : {F64 : Type 0} → MultiProberOptions F64 → ℕ → ℕ
slot_taken o slots = if o.concurrency == 0 then slots else slots + 1

abbrev pub slot_given : {F64 : Type 0} → MultiProberOptions F64 → ℕ → ℕ
slot_given o slots = if o.concurrency == 0 then slots else slots - 1

module _ {F32 F64 : Type 0} where
  abbrev pub at : Phase F32 → Worker F32 F64 → Worker F32 F64
  at phase w = record w { phase = phase }

module _ {F32 F64 : Type 0} (fl : Floats F32 F64) (sla_text : F32 → F64 → Str)
    (o : MultiProberOptions F64) where
  -- `isFailure` and the test of the latency; `sla_text` is the text of its error
  unfoldable pub judge_multi : ProbeResult → Attempt F32
  judge_multi res =
      let rtt_ms = nano_to_millisecond fl res.rtt in
      if not (is_some res.err)
        && fl.lt64 fl.zero64 o.max_latency
        && fl.lt64 o.max_latency (fl.to64 rtt_ms)
      then record {
        res = record res {
          err =
              some
                (record { text = sla_text rtt_ms o.max_latency; is_timeout = false; errno = none });
        };
        rtt_ms = rtt_ms;
        is_failure = true;
      }
      else record { res = res; rtt_ms = rtt_ms; is_failure = is_some res.err }

  -- after the ping of an attempt: another one follows a failure while there are retries left
  unfoldable pub after_ping : ℕ → Attempt F32 → Phase F32
  after_ping n a = if a.is_failure && ltb n (rounds o.retries) then backing n a else releasing a

  -- `now` and the outcome in the statistics
  unfoldable pub record_outcome : Time → Attempt F32 → Statistics F32 F64 → Statistics F32 F64
  record_outcome now a s =
      if a.is_failure
      then record_failure fl (error_message a.res.err) now s
      else record_success fl a.rtt_ms now s

  -- the tests of `MaxConsecutiveFails` and of `ProbeCount`
  unfoldable pub after_record : Statistics F32 F64 → ℕ → Phase F32
  after_record s seq =
      if ltb 0 o.max_consecutive_fails && leb o.max_consecutive_fails s.ongoing_unsuccessful_probes
      then returned
      else if ltb 0 o.probe_count && leb o.probe_count seq
      then returned
      else pausing

  abbrev pub recorded : Time → Attempt F32 → Worker F32 F64 → Worker F32 F64
  recorded now a w =
      let s = record_outcome now a w.stats in
      record { phase = after_record s w.seq; seq = w.seq; stats = s }

  -- A step of a goroutine, with the flag of the cancellation and the elements of the semaphore's
  -- channel before and after.
  pub data Move : Bool → Worker F32 F64 → ℕ → Worker F32 F64 → ℕ → Type 0 where
    returns :
        {w : Worker F32 F64} {slots : ℕ}
        → w.phase ≡ checking
        → Move true w slots (at returned w) slots
    goes_on :
        {w : Worker F32 F64} {slots : ℕ}
        → w.phase ≡ checking
        → Move false w slots (at acquiring w) slots
    takes :
        {is_stopped : Bool} {w : Worker F32 F64} {slots : ℕ}
        → w.phase ≡ acquiring
        → has_room o slots ≡ true
        → Move is_stopped w slots
            (record w { phase = probing 0; seq = inc w.seq })
            (slot_taken o slots)
    pings :
        {is_stopped : Bool} {w : Worker F32 F64} {slots : ℕ} (n : ℕ) (res : ProbeResult)
        → w.phase ≡ probing n
        → Move is_stopped w slots (at (after_ping n (judge_multi res)) w) slots
    wakes :
        {is_stopped : Bool} {w : Worker F32 F64} {slots : ℕ} (n : ℕ) (a : Attempt F32)
        → w.phase ≡ backing n a
        → Move is_stopped w slots (at (probing (n + 1)) w) slots
    is_cut :
        {w : Worker F32 F64} {slots : ℕ} (n : ℕ) (a : Attempt F32)
        → w.phase ≡ backing n a
        → Move true w slots (at (releasing a) w) slots
    gives :
        {is_stopped : Bool} {w : Worker F32 F64} {slots : ℕ} (a : Attempt F32)
        → w.phase ≡ releasing a
        → (o.concurrency == 0 || ltb 0 slots) ≡ true
        → Move is_stopped w slots (at (recording a) w) (slot_given o slots)
    records :
        {is_stopped : Bool} {w : Worker F32 F64} {slots : ℕ} (now : Time) (a : Attempt F32)
        → w.phase ≡ recording a
        → Move is_stopped w slots (recorded now a w) slots
    pauses :
        {is_stopped : Bool} {w : Worker F32 F64} {slots : ℕ}
        → w.phase ≡ pausing
        → Move is_stopped w slots (at checking w) slots
    leaves :
        {w : Worker F32 F64} {slots : ℕ}
        → w.phase ≡ pausing
        → Move true w slots (at returned w) slots

  -- A step of one of the goroutines.
  pub data Moves (is_stopped : Bool)
      : List (Worker F32 F64) → ℕ → List (Worker F32 F64) → ℕ → Type 0 where
    here :
        {w w' : Worker F32 F64} {ws : List (Worker F32 F64)} {slots slots' : ℕ}
        → Move is_stopped w slots w' slots'
        → Moves is_stopped (w ∷ ws) slots (w' ∷ ws) slots'
    there :
        {w : Worker F32 F64} {ws ws' : List (Worker F32 F64)} {slots slots' : ℕ}
        → Moves is_stopped ws slots ws' slots'
        → Moves is_stopped (w ∷ ws) slots (w ∷ ws') slots'

  -- The goroutines of a run: `n` steps from the one state to the other. The flag can be set once.
  pub data Steps
      : Bool → List (Worker F32 F64) → ℕ → ℕ → Bool → List (Worker F32 F64) → ℕ → Type 0 where
    stays : {b : Bool} {ws : List (Worker F32 F64)} {slots : ℕ} → Steps b ws slots 0 b ws slots
    moves :
        {b c : Bool} {ws us vs : List (Worker F32 F64)} {slots i j n : ℕ}
        → Steps b ws slots n c us i
        → Moves c us i vs j
        → Steps b ws slots (suc n) c vs j
    stops :
        {b : Bool} {ws us : List (Worker F32 F64)} {slots i n : ℕ}
        → Steps b ws slots n false us i
        → Steps b ws slots (suc n) true us i

module _ {F32 F64 : Type 0} where
  -- The goroutines as `Run` starts them.
  abbrev pub started : List (Statistics F32 F64) → List (Worker F32 F64)
  started ss = map (λ s. record { phase = checking; seq = 0; stats = s }) ss
