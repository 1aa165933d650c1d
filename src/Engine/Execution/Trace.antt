-- ===== src/Engine/Execution/Trace.antt =====
-- pkg/engine/dynamic.go: `executeTraceroute`, over what the traceroute reports.
use netping.Common.{
  Str, codes, to_upper, Bool, not, ◌&&◌, ◌==◌, Option, none, some, List, [], map, ℤ, pos, Time,
  Duration, Floats, is_some, length, if◌then◌else◌,
}
use netping.Consts.{protocol_str}
use netping.Utils.{GoError}
use netping.Engine.Responses.{HopItem, TriggerResponse}
use netping.Engine.Plans.{Texts, Plan}
use netping.Engine.Execution.{error_text, millis, ip_text}

-- probers.TraceHop; the address is its text
pub record TraceHop : Type 0 where
  pub hop : ℤ
  pub addr : Option Str
  pub hostname : Str
  pub rtts : List Duration
  pub is_reached : Bool
  pub timeout : Bool

abbrev or_star : Option Str → Str
or_star none = codes "*"
or_star (some s) = s

module _ {F32 F64 : Type 0} (fl : Floats F32 F64) (texts : Texts F64) where
  -- the callback of the traceroute
  unfoldable pub hop_item : TraceHop → HopItem F64
  hop_item h = record {
    hop = h.hop;
    address = or_star h.addr;
    hostname = h.hostname;
    rtts_ms = map (millis fl texts) h.rtts;
    timeout = h.timeout && length h.rtts == 0;
  }

  -- executeTraceroute, from the hops in the order of their callbacks and the error of RunTraceroute,
  -- at the time `now`; the fields that the literal leaves out are zero
  unfoldable pub execute_traceroute :
      Plan F64 → List TraceHop → Option GoError → Time → TriggerResponse F64
  unfolding hop_item
  execute_traceroute plan hops e now = record {
    success = not (is_some e);
    target = plan.display;
    hostname = plan.target.host;
    ip = ip_text fl texts plan.ip;
    port = plan.target.port;
    protocol = to_upper (protocol_str plan.target.protocol);
    rtt_ms = fl.zero64;
    dns_time_ms = fl.zero64;
    tcp_time_ms = fl.zero64;
    tls_time_ms = fl.zero64;
    ttfb_ms = fl.zero64;
    http_status = pos 0;
    cert_expiry = [];
    diagnostics = [];
    error = error_text e;
    error_code = if is_some e then codes "TRACEROUTE_ERROR" else [];
    timestamp = texts.rfc3339 now;
    total_sent = 0;
    total_success = 0;
    total_failed = 0;
    packet_loss = fl.zero64;
    avg_rtt_ms = fl.zero64;
    min_rtt_ms = fl.zero64;
    max_rtt_ms = fl.zero64;
    probes = [];
    hops = map hop_item hops;
  }
