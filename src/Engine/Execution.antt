-- ===== src/Engine/Execution.antt =====
-- pkg/engine/dynamic.go: `Execute`. What it calls outside the
-- program is an interface over a state of the outside, as for the probing loop, and one execution is
-- modelled by itself: it works on the statistics that the registry hands out.
pub mod Loop
pub mod Trace
pub mod Dispatch
pub mod Items
pub mod Verdicts
pub mod Reports
use netping.Common.{
  ℕ, zero, suc, ◌+◌, ◌*◌, Str, codes, is_empty, to_upper, contains, itoa, Bool, true, false, not,
  ◌&&◌, ◌==◌, ltb, Option, none, some, List, [], ◌∷◌, ◌++◌, ℤ, pos, le_zero, Time, Duration, Addr,
  no_addr, is_valid, Floats, millisecond, second, inc, is_some, length, if◌then◌else◌,
}
use netping.Consts.{Protocol, protocol_str}
use netping.Stats.{Statistics, record_success, snapshot, Snapshot}
use netping.Utils.{GoError, BackoffConfig, calculate_backoff, classify_error}
use netping.Prober.{ProbeResult, rounds}
use netping.Broadcaster.{ProbeEvent}
use netping.Engine.Requests.{TriggerTarget}
use netping.Engine.Responses.{SingleProbeItem}
use netping.Engine.Plans.{Texts, Plan}

-- What `Execute` reads and writes outside: Ping and SleepWithContext as in the probing loop, the
-- `select` over the interval and the context, crand.Int and time.Now.
pub record Outside (W : Type 0) : Type 0 where
  pub ping : Duration → W → ProbeResult × W
  pub sleep : Duration → W → Bool × W
  pub wait : Duration → W → W
  pub draw : W → Option ℕ × W
  pub clock : W → Time × W

-- The locals `res`, `rttMs` and `isFailure`.
pub record Verdict (F64 : Type 0) : Type 0 where
  pub res : ProbeResult
  pub rtt_ms : F64
  pub is_failure : Bool

-- The statistics, and the locals that the loop over the probes changes; `events` are those handed to
-- the broadcaster, in order.
pub record Run (F32 F64 : Type 0) : Type 0 where
  pub stat : Statistics F32 F64
  pub items : List (SingleProbeItem F64)
  pub last_res : ProbeResult
  pub last_error : Str
  pub last_code : Str
  pub events : List (ProbeEvent F64)

-- probers.ProbeResult{}
abbrev pub no_result : ProbeResult
no_result = record {
  local_addr = none;
  rtt = pos 0;
  dns_time = pos 0;
  tcp_time = pos 0;
  tls_time = pos 0;
  ttfb = pos 0;
  http_status = pos 0;
  cert_expiry = 0;
  diagnostics = [];
  failure_reason = [];
  err = none;
}

-- err.Error()
abbrev pub error_text : Option GoError → Str
error_text none = []
error_text (some e) = e.text

module _ {F32 F64 : Type 0} where
  -- the locked part of the branch `if isFailure`
  unfoldable pub fail_trigger : Time → Str → Statistics F32 F64 → Statistics F32 F64
  fail_trigger now code s = record s {
    ongoing_successful_probes = 0;
    ongoing_unsuccessful_probes = inc s.ongoing_unsuccessful_probes;
    failed = inc s.failed;
    total_unsuccessful_probes = inc s.total_unsuccessful_probes;
    last_unsuccessful_probe = now;
    last_failure_reason = code;
  }

module _ {F32 F64 : Type 0} (fl : Floats F32 F64) where
  -- float64(res.RTT.Nanoseconds()) / 1e6
  abbrev pub rtt_millis : ProbeResult → F64
  rtt_millis res = fl.div64 (fl.of_int64 res.rtt) (fl.of_int64 (pos 1000000))

  -- the branch `else`
  unfoldable pub succeed_trigger : Time → Verdict F64 → Statistics F32 F64 → Statistics F32 F64
  succeed_trigger now v s =
      let t = record_success fl (fl.to32 v.rtt_ms) now s in
      record t {
        latest_diagnostics = v.res.diagnostics;
        latest_dns_time = v.res.dns_time;
        latest_tcp_time = v.res.tcp_time;
        latest_tls_time = v.res.tls_time;
        latest_ttfb = v.res.ttfb;
        latest_http_status = v.res.http_status;
        latest_cert_expiry = v.res.cert_expiry;
      }

module _ {F32 F64 : Type 0} (fl : Floats F32 F64) (texts : Texts F64) where
  -- the text of the error for a latency at or above the limit
  unfoldable pub sla_text : F64 → F64 → Str
  sla_text rtt_ms max_latency =
      codes "latency breached SLA threshold: "
      ++ (texts.fixed4 rtt_ms ++ codes "ms >= " ++ texts.fixed4 max_latency ++ codes "ms")

  -- `isFailure` and the test of the latency
  unfoldable pub judge_trigger : F64 → ProbeResult → Verdict F64
  unfolding sla_text
  judge_trigger max_latency res =
      let rtt_ms = rtt_millis fl res in
      if not (is_some res.err) && fl.lt64 fl.zero64 max_latency && fl.le64 max_latency rtt_ms
      then record {
        res = record res {
          err =
              some
                (record { text = sla_text rtt_ms max_latency; is_timeout = false; errno = none });
        };
        rtt_ms = rtt_ms;
        is_failure = true;
      }
      else record { res = res; rtt_ms = rtt_ms; is_failure = is_some res.err }

  -- `res.DNSTime.Seconds() * 1000`
  abbrev pub millis : Duration → F64
  millis d = fl.mul64 (texts.seconds d) (fl.of_int64 (pos 1000))

  -- the SingleProbeItem of a probe
  unfoldable pub item_of : ℕ → Time → Verdict F64 → SingleProbeItem F64
  item_of i now v = record {
    sequence = i;
    success = not v.is_failure;
    rtt_ms = v.rtt_ms;
    dns_time_ms = millis v.res.dns_time;
    tcp_time_ms = millis v.res.tcp_time;
    tls_time_ms = millis v.res.tls_time;
    ttfb_ms = millis v.res.ttfb;
    http_status = v.res.http_status;
    diagnostics = v.res.diagnostics;
    error = if v.is_failure then error_text v.res.err else [];
    error_code = if v.is_failure then classify_error v.res.err else [];
    timestamp = texts.rfc3339 now;
  }

  -- the address of an event and of the response
  abbrev pub ip_text : Addr → Str
  ip_text ip = if is_valid ip then texts.ip_string ip else []

  -- the event of a probe; the fields that the literal leaves out are zero
  unfoldable pub event_of : Plan F64 → Time → Verdict F64 → Snapshot F32 F64 → ProbeEvent F64
  event_of plan now v snap = record {
    raw_time = now;
    timestamp = [];
    sequence = snap.total_sent;
    success = not v.is_failure;
    rtt = v.rtt_ms;
    target = plan.display;
    hostname = plan.target.host;
    ip = ip_text plan.ip;
    port = plan.target.port;
    protocol = to_upper (protocol_str plan.target.protocol);
    diagnostics = if plan.show_diags then v.res.diagnostics else [];
    error = if v.is_failure then classify_error v.res.err else [];
    dns_time = millis v.res.dns_time;
    tcp_time = millis v.res.tcp_time;
    tls_time = millis v.res.tls_time;
    ttfb = fl.zero64;
    http_status = v.res.http_status;
    total_sent = snap.total_sent;
    total_success = snap.total_success;
    total_failed = snap.total_failed;
    packet_loss = snap.packet_loss;
    avg_rtt = fl.to64 snap.avg_rtt;
    min_rtt = fl.to64 snap.min_rtt;
    max_rtt = fl.to64 snap.max_rtt;
    p95_rtt = fl.zero64;
    p99_rtt = fl.zero64;
    jitter = fl.to64 snap.jitter;
    uptime_duration = snap.uptime_duration;
  }
