-- ===== src/Examples.antt =====
-- Concrete inputs for the theorems: floats as natural numbers, and an outside whose state is the
-- number of pings made so far.
pub mod Probing
pub mod Records
pub mod Names
pub mod Access
pub mod Pools
pub mod Requests
pub mod Parallel
pub mod Wires
use netping.Common.{
  ℕ, ◌+◌, ◌*◌, ◌-◌, ◌≡◌, refl, Str, codes, Bool, true, false, not, Option, none, some, List, [],
  ◌∷◌, ℤ, pos, negsuc, Time, two63, no_addr, ipv4, Floats, IsOrder, ltb, leb, ltb→lt, if◌then◌else◌,
  arith, millisecond, second,
}
use netping.Consts.{tcp}
use netping.Stats.{Statistics, new_statistics}
use netping.Utils.{GoError}
use netping.Dns.{DnsError, resolved}
use netping.Prober.{ProbeResult, World, Prober, new_prober}

-- the whole part of a number that is not negative
abbrev whole : ℤ → ℕ
whole (pos n) = n
whole (negsuc n) = 0

abbrev pub naturals : Floats ℕ ℕ
naturals = record {
  zero32 = 0;
  lt32 = ltb;
  sub32 = λ a b. a - b;
  add32 = λ a b. a + b;
  div32 = λ a b. a;
  to64 = λ a. a;
  to32 = λ a. a;
  of_int32 = whole;
  of_int64 = whole;
  zero64 = 0;
  lt64 = ltb;
  le64 = leb;
  add64 = λ a b. a + b;
  sub64 = λ a b. a - b;
  mul64 = λ a b. a * b;
  div64 = λ a b. a;
  abs64 = λ a. a;
  pow64 = λ a b. a;
  trunc64 = pos;
}

pub naturals_IsOrder : IsOrder ltb
naturals_IsOrder = record { irrefl = λ a. ground arith; trans = λ a b c h k. ground arith }

abbrev pub target : netping.Stats.Options
target = record {
  hostname = codes "example.org";
  ip = ipv4 16909060;
  port = 443;
  protocol = tcp;
  target_is_ip = false;
  local_addr = none;
  with_timestamp = false;
  with_source_address = false;
  with_diags = false;
}

abbrev pub refused : GoError
refused = record { text = codes "connection refused"; is_timeout = false; errno = none }

-- an answer of a ping that took the given time
abbrev pub answer : ℕ → Option GoError → ProbeResult
answer rtt err = record {
  local_addr = none;
  rtt = pos rtt;
  dns_time = pos 0;
  tcp_time = pos rtt;
  tls_time = pos 0;
  ttfb = pos 0;
  http_status = pos 0;
  cert_expiry = 0;
  diagnostics = [];
  failure_reason = [];
  err = err;
}

-- the first three pings are refused; the clock is past 2^63 nanoseconds of Go's zero time
abbrev pub outside : World ℕ ℕ ℕ
outside = record {
  ping = λ timeout w. (answer (7 * millisecond) (if ltb w 3 then some refused else none), w + 1);
  sleep = λ d w. (false, w);
  draw = λ w. (some 17, w);
  clock = λ w. (two63 + 1000 + w, w);
  resolve = λ hostname w. (resolved (ipv4 16909060), w);
  call = λ c s w. w;
  sla_text = λ rtt limit. codes "latency exceeds max-latency";
}

abbrev pub settings : ℕ → ℕ → netping.Prober.Options ℕ
settings retries limit = record {
  timeout = pos second;
  interval_between_probes = pos second;
  probes_before_quit = limit;
  should_retry_resolve = true;
  retry_resolve_after_n_failures = 2;
  resolve_every_probe = false;
  max_consecutive_fails = 0;
  max_latency = 0;
  quiet_mode = false;
  retries = retries;
  initial_retry_backoff = pos millisecond;
  max_retry_backoff = pos second;
  retry_jitter = false;
  has_callback = true;
  has_resolver = true;
}

abbrev pub prober : ℕ → ℕ → Prober ℕ ℕ
prober retries limit =
    new_prober true (new_statistics naturals (two63 + 5) target) (settings retries limit)
