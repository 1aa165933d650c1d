-- ===== src/Engine/Plans.antt =====
-- pkg/engine/dynamic.go: the settings that `Execute` reads from a request.
use netping.Common.{
  ℕ, ◌*◌, Str, codes, is_empty, itoa, Bool, true, ◌&&◌, ◌==◌, Option, none, some, ◌++◌, pos,
  le_zero, Time, Duration, Addr, is_valid, Floats, millisecond, second, if◌then◌else◌,
}
use netping.Utils.{BackoffConfig, seconds_to_duration}
use netping.Engine.Requests.{TriggerRequest, TriggerTarget}

-- The functions of the standard library on texts and times: time.ParseDuration, strconv.ParseFloat,
-- the verb %.4f, Duration.Seconds, netip.Addr.String, Time.Format for RFC 3339, and the text of the
-- uptime in a snapshot.
pub record Texts (F64 : Type 0) : Type 0 where
  pub parse_duration : Str → Option Duration
  pub parse_float : Str → Option F64
  pub fixed4 : F64 → Str
  pub seconds : Duration → F64
  pub ip_string : Addr → Str
  pub rfc3339 : Time → Str
  pub uptime_string : Time → Time → Str

-- The settings of an execution, which `Execute` reads from the request.
pub record Plan (F64 : Type 0) : Type 0 where
  pub target : TriggerTarget
  pub ip : Addr
  pub display : Str
  pub timeout : Duration
  pub interval : Duration
  pub count : ℕ
  pub retries : ℕ
  pub backoff : BackoffConfig F64
  pub max_latency_ms : F64
  pub is_broadcast : Bool
  pub show_diags : Bool

abbrev positive_duration : Option Duration → Option Duration
positive_duration none = none
positive_duration (some d) = if le_zero d then none else some d

abbrev or_duration : Option Duration → Duration → Duration
or_duration none d = d
or_duration (some d) other = d

abbrev or_flag : Option Bool → Bool
or_flag none = true
or_flag (some b) = b

module _ {F32 F64 : Type 0} (fl : Floats F32 F64) (texts : Texts F64) where
  abbrev positive_seconds : Option F64 → Option Duration
  positive_seconds none = none
  positive_seconds (some x) = if fl.lt64 fl.zero64 x then some (seconds_to_duration fl x) else none

  -- `timeout` and `interval`: a positive duration, or a positive number of seconds, or the default
  unfoldable pub read_duration : Duration → Str → Duration
  read_duration default_value s =
      if is_empty s
      then default_value
      else or_duration (positive_duration (texts.parse_duration s))
          (or_duration (positive_seconds (texts.parse_float s)) default_value)

  -- `retryBackoff` and `maxRetryBackoff`
  unfoldable pub read_backoff : Duration → Str → Duration
  read_backoff default_value s =
      if is_empty s
      then default_value
      else or_duration (positive_duration (texts.parse_duration s)) default_value

  -- the settings; `has_broadcaster` says whether `e.broadcaster` is not nil
  unfoldable pub plan_of : Bool → TriggerTarget → Addr → TriggerRequest F64 → Plan F64
  unfolding read_duration read_backoff
  plan_of has_broadcaster target ip req = record {
    target = target;
    ip = ip;
    display =
        (if is_empty target.host && is_valid ip then texts.ip_string ip else target.host)
        ++ codes ":"
        ++ itoa target.port;
    timeout = read_duration (pos (2 * second)) req.timeout;
    interval = read_duration (pos (500 * millisecond)) req.interval;
    count = if req.count == 0 then 1 else req.count;
    retries = req.retries;
    backoff = record {
      initial_delay = read_backoff (pos (50 * millisecond)) req.retry_backoff;
      max_delay = read_backoff (pos (2 * second)) req.max_retry_backoff;
      multiplier = fl.of_int64 (pos 2);
      jitter = or_flag req.retry_jitter;
    };
    max_latency_ms = req.max_latency_ms;
    is_broadcast = or_flag req.broadcast && has_broadcaster;
    show_diags = req.show_diags;
  }
