-- ===== src/Stats.antt =====
-- pkg/stats/stats.go: the statistics of a target and its methods. A method that mutates
-- `*Statistics` returns the new record; the mutex makes each method one step. Formatting by Go's
-- standard library (`netip.Addr.String`, the rounded text of the uptime) is a parameter.

pub mod Replay
pub mod Window
pub mod Bounds
use netping.Common.{
  ℕ, Str, Bool, true, false, Option, List, [], ◌∷◌, ◌++◌, ℤ, pos, Time, Duration, inc, add_u64,
  Addr, Floats, length, last, ltb, ◌==◌, add_time, if◌then◌else◌,
}
use netping.Consts.{Protocol, protocol_str, tcp, custom}

pub record RttResult (F32 : Type 0) : Type 0 where
  pub min : F32
  pub max : F32
  pub average : F32
  pub jitter : F32
  pub p95 : F32
  pub p99 : F32
  pub has_results : Bool

pub record LongestTime : Type 0 where
  pub start : Time
  pub end_time : Time
  pub duration : Duration

pub record HostnameChange : Type 0 where
  pub addr : Addr
  pub changed : Time

pub record Statistics (F32 F64 : Type 0) : Type 0 where
  pub ip : Addr
  pub port : ℕ
  pub protocol : Protocol
  pub hostname : Str
  pub dest_was_down : Bool
  pub dest_is_ip : Bool
  pub local_addr : Option Str
  pub start_time : Time
  pub end_time : Time
  pub up_time : Duration
  pub down_time : Duration
  pub successful : ℕ
  pub failed : ℕ
  pub total_successful_probes : ℕ
  pub total_unsuccessful_probes : ℕ
  pub last_successful_probe : Time
  pub last_unsuccessful_probe : Time
  pub total_downtime : Duration
  pub total_uptime : Duration
  pub start_of_uptime : Time
  pub start_of_downtime : Time
  pub longest_uptime : LongestTime
  pub longest_downtime : LongestTime
  pub hostname_changes : List HostnameChange
  pub retried_hostname_lookups : ℕ
  pub ongoing_successful_probes : ℕ
  pub ongoing_unsuccessful_probes : ℕ
  pub longest_up : LongestTime
  pub longest_down : LongestTime
  pub rtt : List F32
  pub latest_rtt : F32
  pub min_rtt : F32
  pub max_rtt : F32
  pub sum_rtt : F64
  pub count_rtt : ℕ
  pub jitter : F32
  pub last_failure_reason : Str
  pub rtt_results : RttResult F32
  pub host_changes : List HostnameChange
  pub has_results : Bool
  pub with_timestamp : Bool
  pub with_source_address : Bool
  pub with_diags : Bool
  pub latest_diagnostics : Str
  pub latest_dns_time : Duration
  pub latest_tcp_time : Duration
  pub latest_tls_time : Duration
  pub latest_ttfb : Duration
  pub latest_http_status : ℤ
  pub latest_cert_expiry : Time

pub record Options : Type 0 where
  pub hostname : Str
  pub ip : Addr
  pub port : ℕ
  pub protocol : Protocol
  pub target_is_ip : Bool
  pub local_addr : Option Str
  pub with_timestamp : Bool
  pub with_source_address : Bool
  pub with_diags : Bool

pub record Snapshot (F32 F64 : Type 0) : Type 0 where
  pub hostname : Str
  pub ip : Str
  pub port : ℕ
  pub protocol : Str
  pub total_sent : ℕ
  pub total_success : ℕ
  pub total_failed : ℕ
  pub packet_loss : F64
  pub latest_rtt : F32
  pub min_rtt : F32
  pub avg_rtt : F32
  pub max_rtt : F32
  pub jitter : F32
  pub last_successful_probe : Time
  pub last_unsuccessful_probe : Time
  pub last_failure_reason : Str
  pub uptime_duration : Str
  pub start_time : Time

-- LongestTime{}
abbrev pub no_longest_time : LongestTime
no_longest_time = record { start = 0; end_time = 0; duration = pos 0 }

-- The samples that `RTT` keeps at most.
abbrev pub max_samples : ℕ
max_samples = 5000

-- `opts.Protocol`, or TCP for the empty string
abbrev pub or_tcp : Protocol → Protocol
or_tcp (custom []) = tcp
or_tcp p = p

-- `if len(s.RTT) > 5000 { s.RTT = s.RTT[len(s.RTT)-5000:] }`
abbrev pub clip {ℓ} : {A : Type ℓ} → List A → List A
clip xs = if ltb max_samples (length xs) then last max_samples xs else xs

module _ {F32 F64 : Type 0} (fl : Floats F32 F64) where
  open fl use {zero32, zero64, lt32, sub32, to64, to32, add64, sub64, mul64, div64, abs64, of_int64}

  -- NewStatistics, at the time `now`
  unfoldable pub new_statistics : Time → Options → Statistics F32 F64
  new_statistics now opts = record {
    hostname = opts.hostname;
    ip = opts.ip;
    port = opts.port;
    dest_is_ip = opts.target_is_ip;
    local_addr = opts.local_addr;
    with_timestamp = opts.with_timestamp;
    with_source_address = opts.with_source_address;
    with_diags = opts.with_diags;
    protocol = or_tcp opts.protocol;
    rtt_results = record {
      min = zero32;
      max = zero32;
      average = zero32;
      jitter = zero32;
      p95 = zero32;
      p99 = zero32;
      has_results = false;
    };
    longest_uptime = no_longest_time;
    longest_downtime = no_longest_time;
    hostname_changes = record { addr = opts.ip; changed = now } ∷ [];
    start_time = now;
    dest_was_down = false;
    end_time = 0;
    up_time = pos 0;
    down_time = pos 0;
    successful = 0;
    failed = 0;
    total_successful_probes = 0;
    total_unsuccessful_probes = 0;
    last_successful_probe = 0;
    last_unsuccessful_probe = 0;
    total_downtime = pos 0;
    total_uptime = pos 0;
    start_of_uptime = 0;
    start_of_downtime = 0;
    retried_hostname_lookups = 0;
    ongoing_successful_probes = 0;
    ongoing_unsuccessful_probes = 0;
    longest_up = no_longest_time;
    longest_down = no_longest_time;
    rtt = [];
    latest_rtt = zero32;
    min_rtt = zero32;
    max_rtt = zero32;
    sum_rtt = zero64;
    count_rtt = 0;
    jitter = zero32;
    last_failure_reason = [];
    host_changes = [];
    has_results = false;
    latest_diagnostics = [];
    latest_dns_time = pos 0;
    latest_tcp_time = pos 0;
    latest_tls_time = pos 0;
    latest_ttfb = pos 0;
    latest_http_status = pos 0;
    latest_cert_expiry = 0;
  }

  -- J + (|D| - J) / 16 of RFC 3550, in the conversions of the source
  abbrev pub next_jitter : F32 → F32 → F32 → F32
  next_jitter rtt latest jitter =
      let d = abs64 (to64 (sub32 rtt latest)) in
      fl.add32 jitter (to32 (div64 (sub64 d (to64 jitter)) (of_int64 (pos 16))))

  -- the `if s.CountRTT == 0` of `RecordSuccess`
  abbrev pub add_sample : F32 → Statistics F32 F64 → Statistics F32 F64
  add_sample rtt s =
      if s.count_rtt == 0
      then record s {
        min_rtt = rtt;
        max_rtt = rtt;
        sum_rtt = to64 rtt;
        count_rtt = 1;
        jitter = zero32;
      }
      else record s {
        min_rtt = if lt32 rtt s.min_rtt then rtt else s.min_rtt;
        max_rtt = if lt32 s.max_rtt rtt then rtt else s.max_rtt;
        sum_rtt = add64 s.sum_rtt (to64 rtt);
        count_rtt = inc s.count_rtt;
        jitter = next_jitter rtt s.latest_rtt s.jitter;
      }

  -- RecordSuccess
  unfoldable pub record_success : F32 → Time → Statistics F32 F64 → Statistics F32 F64
  record_success rtt now s =
      let t = add_sample rtt (record s {
        total_successful_probes = inc s.total_successful_probes;
        successful = inc s.successful;
        has_results = true;
        ongoing_successful_probes = inc s.ongoing_successful_probes;
        ongoing_unsuccessful_probes = 0;
        last_successful_probe = now;
      }) in
      record t { latest_rtt = rtt; rtt = clip (t.rtt ++ rtt ∷ []) }

  -- RecordFailure
  unfoldable pub record_failure : Str → Time → Statistics F32 F64 → Statistics F32 F64
  record_failure reason now s = record s {
    total_unsuccessful_probes = inc s.total_unsuccessful_probes;
    failed = inc s.failed;
    ongoing_unsuccessful_probes = inc s.ongoing_unsuccessful_probes;
    ongoing_successful_probes = 0;
    last_unsuccessful_probe = now;
    last_failure_reason = reason;
  }

  -- Snapshot, at the time `now`; `ip_string` is `netip.Addr.String`, and `uptime_string` the text
  -- of `time.Since(s.StartTime).Round(time.Second)` from the start and the present time
  unfoldable pub snapshot :
      (Addr → Str) → (Time → Time → Str) → Time → Statistics F32 F64 → Snapshot F32 F64
  snapshot ip_string uptime_string now s =
      let total = add_u64 s.total_successful_probes s.total_unsuccessful_probes in
      record {
        hostname = s.hostname;
        ip = ip_string s.ip;
        port = s.port;
        protocol = protocol_str s.protocol;
        total_sent = total;
        total_success = s.total_successful_probes;
        total_failed = s.total_unsuccessful_probes;
        packet_loss =
            if ltb 0 total
            then mul64 (div64 (of_int64 (pos s.total_unsuccessful_probes)) (of_int64 (pos total)))
                (of_int64 (pos 100))
            else zero64;
        latest_rtt = s.latest_rtt;
        min_rtt = s.min_rtt;
        avg_rtt =
            if ltb 0 s.count_rtt
            then to32 (div64 s.sum_rtt (of_int64 (pos s.count_rtt)))
            else zero32;
        max_rtt = s.max_rtt;
        jitter = s.jitter;
        last_successful_probe = s.last_successful_probe;
        last_unsuccessful_probe = s.last_unsuccessful_probe;
        last_failure_reason = s.last_failure_reason;
        uptime_duration = if s.start_time == 0 then [] else uptime_string s.start_time now;
        start_time = s.start_time;
      }

  -- Reset, at the time `now`
  unfoldable pub reset : Time → Statistics F32 F64 → Statistics F32 F64
  reset now s = record s {
    rtt = [];
    min_rtt = zero32;
    max_rtt = zero32;
    sum_rtt = zero64;
    count_rtt = 0;
    latest_rtt = zero32;
    jitter = zero32;
    total_successful_probes = 0;
    total_unsuccessful_probes = 0;
    successful = 0;
    failed = 0;
    ongoing_successful_probes = 0;
    ongoing_unsuccessful_probes = 0;
    start_time = now;
  }

-- NewLongestTime
unfoldable pub new_longest_time : Time → Duration → LongestTime
new_longest_time start duration = record {
  start = start;
  end_time = add_time start duration;
  duration = duration;
}
