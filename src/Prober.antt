-- ===== src/Prober.antt =====
-- pkg/probers/probers.go: the probing loop of one target. What the loop calls is an interface,
-- `World`: the pinger, the timer, the random source, the clock, the resolver and the printer, each
-- an action on a state `W` of the outside. The channels that `select` waits on are a list of
-- signals; the ticker's `time.Now()` comes with the tick.
pub mod Retry
pub mod Ledger
pub mod Tick
pub mod Outage
pub mod Limits
use netping.Common.{
  ℕ, zero, suc, ◌+◌, Str, Bool, true, false, ◌&&◌, not, Option, none, some, List, [], ◌∷◌, ℤ, pos,
  le_zero, Time, Duration, two63, inc, add_i64, sub_time, second, Addr, Floats, is_some, ltb, leb,
  ◌==◌, if◌then◌else◌,
}
use netping.Stats.{Statistics, LongestTime, record_success}
use netping.Utils.{
  GoError, BackoffConfig, calculate_backoff, draw_if, classify_error, nano_to_millisecond,
  set_longest_duration,
}
use netping.Dns.{DnsError, Resolved, retry_resolve_hostname}

pub record ProbeResult : Type 0 where
  pub local_addr : Option Str
  pub rtt : Duration
  pub dns_time : Duration
  pub tcp_time : Duration
  pub tls_time : Duration
  pub ttfb : Duration
  pub http_status : ℤ
  pub cert_expiry : Time
  pub diagnostics : Str
  pub failure_reason : Str
  pub err : Option GoError

-- `has_resolver` and `has_callback` say whether `Resolver` and `OnProbeResult` are not nil
pub record Options (F64 : Type 0) : Type 0 where
  pub timeout : Duration
  pub interval_between_probes : Duration
  pub probes_before_quit : ℕ
  pub should_retry_resolve : Bool
  pub retry_resolve_after_n_failures : ℕ
  pub resolve_every_probe : Bool
  pub max_consecutive_fails : ℕ
  pub max_latency : F64
  pub quiet_mode : Bool
  pub retries : ℕ
  pub initial_retry_backoff : Duration
  pub max_retry_backoff : Duration
  pub retry_jitter : Bool
  pub has_callback : Bool
  pub has_resolver : Bool

-- The calls of the interface `Printer`, and of the callback.
pub data Call : Type 0 where
  print_probe_success print_probe_failure print_total_down_time : Call
  print_retrying_to_resolve : Str → Call
  print_error : DnsError → Call
  on_probe_result : ProbeResult → Call

pub record World (F32 F64 W : Type 0) : Type 0 where
  -- Ping under a context with the given timeout
  pub ping : Duration → W → ProbeResult × W
  -- SleepWithContext: whether it was cut short by the cancelled context
  pub sleep : Duration → W → Bool × W
  -- crand.Int below 10000
  pub draw : W → Option ℕ × W
  -- time.Now
  pub clock : W → Time × W
  -- ResolveHostname of the configured resolver
  pub resolve : Str → W → Resolved × W
  -- a call of the printer or the callback, which read the statistics
  pub call : Call → Statistics F32 F64 → W → W
  -- the text of the error for a latency above the limit
  pub sla_text : F32 → F64 → Str

pub record Prober (F32 F64 : Type 0) : Type 0 where
  pub has_printer : Bool
  pub opts : Options F64
  pub ticker : Duration
  pub timeout : Duration
  pub statistics : Statistics F32 F64
  -- the local `probeCount` of `Probe`
  pub probe_count : ℕ

-- A non-positive duration gives way to a second.
abbrev pub or_second : Duration → Duration
or_second d = if le_zero d then pos second else d

-- NewProber; the counter starts with the loop
unfoldable pub new_prober :
    {F32 F64 : Type 0} → Bool → Statistics F32 F64 → Options F64 → Prober F32 F64
new_prober has_printer stat opts = record {
  has_printer = has_printer;
  opts = opts;
  ticker = or_second opts.interval_between_probes;
  timeout = or_second opts.timeout;
  statistics = stat;
  probe_count = 0;
}

-- A ping with its verdict: the locals `res`, `rttMs` and `isFailure`.
pub record Attempt (F32 : Type 0) : Type 0 where
  pub res : ProbeResult
  pub rtt_ms : F32
  pub is_failure : Bool

-- A round of retrying: whether the sleep was cut short, the outside after it, and the new attempt
-- with the outside after its ping.
pub record Round (F32 W : Type 0) : Type 0 where
  pub is_cancelled : Bool
  pub slept : W
  pub next : Attempt F32
  pub pinged : W

-- `int(p.opts.Retries)` as a number of rounds: a value of 2^63 and more is negative as an int
abbrev pub rounds : ℕ → ℕ
rounds retries = if ltb retries two63 then retries else 0

-- What `select` receives.
pub data Signal : Type 0 where
  cancelled : Signal
  tick : Time → Signal

module _ {F32 F64 W : Type 0} (fl : Floats F32 F64) (world : World F32 F64 W) where
  open fl use {lt64, zero64, to64}

  -- the error test, and the test of the latency against `MaxLatency`
  unfoldable pub judge : F64 → ProbeResult → Attempt F32
  judge max_latency res =
      let rtt_ms = nano_to_millisecond fl res.rtt in
      if not (is_some res.err) && lt64 zero64 max_latency && lt64 max_latency (to64 rtt_ms)
      then record {
        res = record res {
          err = some (record {
            text = world.sla_text rtt_ms max_latency;
            is_timeout = false;
            errno = none;
          });
        };
        rtt_ms = rtt_ms;
        is_failure = true;
      }
      else record { res = res; rtt_ms = rtt_ms; is_failure = is_some res.err }

  abbrev backoff_of : Options F64 → BackoffConfig F64
  backoff_of opts = record {
    initial_delay = opts.initial_retry_backoff;
    max_delay = opts.max_retry_backoff;
    multiplier = fl.of_int64 (pos 2);
    jitter = opts.retry_jitter;
  }

  -- one round of the loop over `attempt`: the backoff, the sleep, the ping and its verdict
  unfoldable pub retry_round : Prober F32 F64 → ℕ → W → Round F32 W
  retry_round p n w =
      let (drawn, w1) = draw_if p.opts.retry_jitter world.draw w in
      let (is_cancelled, w2) =
        world.sleep (calculate_backoff fl drawn (pos n) (backoff_of p.opts)) w1 in
      let (res, w3) = world.ping p.timeout w2 in
      record {
        is_cancelled = is_cancelled;
        slept = w2;
        next = judge p.opts.max_latency res;
        pinged = w3;
      }

  -- the loop over `attempt`, with the rounds left, `attempt - 1`, and the failed attempt so far
  unfoldable pub retry_loop : Prober F32 F64 → ℕ → ℕ → Attempt F32 → W → Attempt F32 × W
  retry_loop p zero n last w = (last, w)
  retry_loop p (suc left) n last w =
      let r = retry_round p n w in
      let again = retry_loop p left (n + 1) r.next r.pinged in
      if r.is_cancelled
      then (last, r.slept)
      else if r.next.is_failure
      then again
      else (r.next, r.pinged)

  -- the first ping and, if it failed, the retries
  unfoldable pub attempt : Prober F32 F64 → W → Attempt F32 × W
  attempt p w =
      let (res, w') = world.ping p.timeout w in
      let first = judge p.opts.max_latency res in
      if first.is_failure && ltb 0 p.opts.retries
      then retry_loop p (rounds p.opts.retries) 0 first w'
      else (first, w')

  -- the counters of a failed probe, and the start of a downtime
  unfoldable pub fail_statistics : Time → Option GoError → Statistics F32 F64 → Statistics F32 F64
  fail_statistics ping_time err s = record s {
    ongoing_successful_probes = 0;
    ongoing_unsuccessful_probes = inc s.ongoing_unsuccessful_probes;
    failed = inc s.failed;
    total_unsuccessful_probes = inc s.total_unsuccessful_probes;
    last_unsuccessful_probe = ping_time;
    last_failure_reason = classify_error err;
    dest_was_down = true;
    start_of_downtime = if s.dest_was_down then s.start_of_downtime else ping_time;
  }

  -- the details of the newest successful probe
  abbrev pub copy_result : ProbeResult → Statistics F32 F64 → Statistics F32 F64
  copy_result res s = record s {
    local_addr = if is_some res.local_addr then res.local_addr else s.local_addr;
    latest_diagnostics = res.diagnostics;
    latest_dns_time = res.dns_time;
    latest_tcp_time = res.tcp_time;
    latest_tls_time = res.tls_time;
    latest_ttfb = res.ttfb;
    latest_http_status = res.http_status;
    latest_cert_expiry = res.cert_expiry;
  }

  -- the end of a downtime that began at `StartOfDowntime`
  abbrev pub end_downtime : Time → Statistics F32 F64 → Statistics F32 F64
  end_downtime at s =
      let down_duration = sub_time at s.start_of_downtime in
      record s {
        total_downtime = add_i64 s.total_downtime down_duration;
        down_time = down_duration;
        longest_down = set_longest_duration s.start_of_downtime down_duration s.longest_down;
      }

  -- `RecordSuccess`, the details, and the end of a downtime
  unfoldable pub succeed_statistics :
      Time → F32 → ProbeResult → Statistics F32 F64 → Statistics F32 F64
  succeed_statistics ping_time rtt_ms res s =
      let t = copy_result res (record_success fl rtt_ms ping_time s) in
      let u =
        if t.dest_was_down
        then record (end_downtime ping_time t) {
          dest_was_down = false;
          start_of_uptime = ping_time;
        }
        else t in
      record u { start_of_uptime = if u.start_of_uptime == 0 then ping_time else u.start_of_uptime }

  -- finalizeStatistics, at the time `now`
  unfoldable pub finalize_statistics : Time → Statistics F32 F64 → Statistics F32 F64
  finalize_statistics now s =
      let t = record s { end_time = now; up_time = sub_time now s.start_time } in
      let up_duration = sub_time now s.start_of_uptime in
      if t.dest_was_down then end_downtime now t else record t {
        total_uptime = add_i64 t.total_uptime up_duration;
        longest_up = set_longest_duration t.start_of_uptime up_duration t.longest_up;
      }

  -- a call under `p.printer != nil && !p.opts.QuietMode`
  abbrev print : Prober F32 F64 → Call → W → W
  print p c w = if p.has_printer && not p.opts.quiet_mode then world.call c p.statistics w else w

  -- a call of `Resolver.RetryResolveHostname`
  re_resolve : Prober F32 F64 → W → (Prober F32 F64 × Option DnsError) × W
  re_resolve p w =
      let (answer, w1) = world.resolve p.statistics.hostname w in
      let (now, w2) = world.clock w1 in
      let (s, e) = retry_resolve_hostname answer now p.statistics in
      ((record p { statistics = s }, e), w2)

  -- the re-resolution before a ping
  unfoldable pub before_ping : Prober F32 F64 → W → Prober F32 F64 × W
  unfolding re_resolve
  before_ping p w =
      if p.opts.resolve_every_probe && not p.statistics.dest_is_ip && p.opts.has_resolver
      then (let ((p', e), w') = re_resolve p w in (p', w'))
      else (p, w)

  print_resolve_error : Prober F32 F64 → Option DnsError → W → W
  print_resolve_error p none w = w
  print_resolve_error p (some e) w =
      if p.has_printer then world.call (print_error e) p.statistics w else w

  -- the re-resolution after so many failures
  unfoldable pub after_failures : Prober F32 F64 → W → Prober F32 F64 × W
  unfolding re_resolve print_resolve_error
  after_failures p w =
      let s = p.statistics in
      let q = record p {
        statistics = record s { retried_hostname_lookups = inc s.retried_hostname_lookups };
      } in
      let ((q', e), w') = re_resolve q (print q (print_retrying_to_resolve s.hostname) w) in
      if p.opts.should_retry_resolve
        && leb p.opts.retry_resolve_after_n_failures s.ongoing_unsuccessful_probes
        && p.opts.has_resolver
      then (q', print_resolve_error q' e w')
      else (p, w)

  -- the branch `if isFailure`, without the test of `MaxConsecutiveFails`
  unfoldable pub on_failure : Time → ProbeResult → Prober F32 F64 → W → Prober F32 F64 × W
  on_failure ping_time res p w =
      let q = record p { statistics = fail_statistics ping_time res.err p.statistics } in
      after_failures q (print q print_probe_failure w)

  -- the branch `else`
  unfoldable pub on_success : Time → Attempt F32 → Prober F32 F64 → W → Prober F32 F64 × W
  on_success ping_time a p w =
      let q = record p { statistics = succeed_statistics ping_time a.rtt_ms a.res p.statistics } in
      let w1 = if p.statistics.dest_was_down then print q print_total_down_time w else w in
      (q, print q print_probe_success w1)

  -- `p.finalizeStatistics(); return`
  unfoldable pub finish : Prober F32 F64 → W → (Prober F32 F64 × Bool) × W
  unfolding finalize_statistics
  finish p w =
      let (now, w') = world.clock w in
      ((record p { statistics = finalize_statistics now p.statistics }, true), w')

  -- the callback and the count of probes; the flag says whether `Probe` has returned
  unfoldable pub end_of_probe : ProbeResult → Prober F32 F64 → W → (Prober F32 F64 × Bool) × W
  unfolding finish
  end_of_probe res p w =
      let w1 = if p.opts.has_callback then world.call (on_probe_result res) p.statistics w else w in
      let q = record p { probe_count = inc p.probe_count } in
      if ltb 0 p.opts.probes_before_quit
      then (if leb q.opts.probes_before_quit q.probe_count then finish q w1 else ((q, false), w1))
      else ((p, false), w1)

  -- the test of `MaxConsecutiveFails` at the end of the branch `if isFailure`
  unfoldable pub after_failure : ProbeResult → Prober F32 F64 → W → (Prober F32 F64 × Bool) × W
  after_failure res p w =
      if ltb 0 p.opts.max_consecutive_fails
        && leb p.opts.max_consecutive_fails p.statistics.ongoing_unsuccessful_probes
      then finish p w
      else end_of_probe res p w

  -- the case of `select` for a tick at `ping_time`
  unfoldable pub on_tick : Time → Prober F32 F64 → W → (Prober F32 F64 × Bool) × W
  on_tick ping_time p w =
      let (p1, w1) = before_ping p w in
      let (a, w2) = attempt p1 w1 in
      let (p2, w3) = on_failure ping_time a.res p1 w2 in
      let (p3, w4) = on_success ping_time a p1 w2 in
      if a.is_failure then after_failure a.res p2 w3 else end_of_probe a.res p3 w4

  -- Probe: the flag is false if the signals end while the loop still waits
  unfoldable pub probe : List Signal → Prober F32 F64 → W → (Prober F32 F64 × Bool) × W
  probe [] p w = ((p, false), w)
  probe (cancelled ∷ signals) p w = finish p w
  probe (tick ping_time ∷ signals) p w =
      let r = on_tick ping_time p w in
      let rest = probe signals r.0.0 r.1 in if r.0.1 then r else rest
