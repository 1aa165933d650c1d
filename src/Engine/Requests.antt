-- ===== src/Engine/Requests.antt =====
-- pkg/web/types.go and pkg/engine/dynamic.go: the trigger requests, the target that one names, and the
-- pinger that it asks for.
pub mod Targets
use netping.Common.{
  ℕ, Str, codes, is_empty, to_lower, has_prefix, has_suffix, contains, cut_before, trim_suffix,
  itoa, Bool, true, false, not, ◌&&◌, ◌||◌, ◌==◌, Option, none, some, List, [], ◌∷◌, ◌++◌, Addr,
  Duration, if◌then◌else◌,
}
use netping.Consts.{Protocol, mongodbs}
use netping.Consts.Protocols.{normalize_protocol}
use netping.Config.{Srv, Lookups, default_target, port_or, is_mongodb, is_mongodbsrv}
use netping.Pingers.{Construction}
use netping.Factory.Options.{FactoryOptions}
use netping.Factory.{build_pinger}

-- TriggerRequest; a pointer to a flag is an option
pub record TriggerRequest (F64 : Type 0) : Type 0 where
  pub target : Str
  pub host : Str
  pub port : ℕ
  pub protocol : Str
  pub uri : Str
  pub timeout : Str
  pub count : ℕ
  pub interval : Str
  pub retries : ℕ
  pub retry_backoff : Str
  pub max_retry_backoff : Str
  pub retry_jitter : Option Bool
  pub max_latency_ms : F64
  pub use_ipv4 : Bool
  pub use_ipv6 : Bool
  pub send_data : Str
  pub expect_data : Str
  pub fast_close : Bool
  pub start_tls : Bool
  pub service_name : Str
  pub dns_server : Str
  pub dns_hosts : List Str
  pub traceroute : Bool
  pub show_diags : Bool
  pub broadcast : Option Bool
  pub resolve_every_probe : Bool
  pub retry_resolve_after : ℕ
  pub max_consecutive_fails : ℕ
  pub method : Str
  pub user_agent : Str
  pub waf : Bool

-- The result of `resolveTriggerTarget`.
pub record TriggerTarget : Type 0 where
  pub host : Str
  pub port : ℕ
  pub protocol : Protocol
  pub service_name : Str

-- resolveProtocolAndDefaultPort
unfoldable pub resolve_protocol_and_default_port : Str → Protocol × Str × Str
resolve_protocol_and_default_port protocol_string =
    let (proto, port, known) = normalize_protocol protocol_string in
    (proto, itoa port, default_target proto)

abbrev pub or_str : Str → Str → Str
or_str [] t = t
or_str (c ∷ s) t = c ∷ s

-- `port`, or the text of the port where it is 0: `if port == 0 && p != ""` with the port that follows
abbrev pub or_parsed : ℕ → Str → ℕ
or_parsed port p = if port == 0 && not (is_empty p) then port_or port p else port

-- the host and the port of the target: those of the URL, those of host:port, or the target itself
abbrev pub split_target : Str → ℕ → Option (Str × Str) → Str × ℕ
split_target raw port none = (raw, port)
split_target raw port (some (h, p)) = (h, if port == 0 then port_or port p else port)

abbrev pub place_of : Lookups → Str → ℕ → Option (Str × Str) → Str × ℕ
place_of net raw port none = split_target raw port (net.split_host_port raw)
place_of net raw port (some (hostname, p)) =
    if is_empty hostname
    then split_target raw port (net.split_host_port raw)
    else (hostname, or_parsed port p)

-- the target where the lookup has answered with records: its first record
abbrev pub first_node : Option (List Srv) → TriggerTarget → TriggerTarget
first_node none t = t
first_node (some []) t = t
first_node (some (addr ∷ addrs)) t = record t {
  host = trim_suffix (codes ".") addr.target;
  port = addr.port;
  protocol = mongodbs;
}

abbrev scheme_or : Str → Option Str → Str
scheme_or protocol none = protocol
scheme_or protocol (some scheme) = scheme

module _ {F64 : Type 0} where
  -- `rawTarget`
  unfoldable pub raw_target : TriggerRequest F64 → Str
  unfolding resolve_protocol_and_default_port
  raw_target req =
      let named = or_str req.target (or_str req.host req.uri) in
      if is_empty named && not (is_empty req.protocol)
      then (resolve_protocol_and_default_port req.protocol).2
      else named

  -- `protoStr`
  unfoldable pub trigger_protocol : TriggerRequest F64 → Str
  trigger_protocol req =
      if is_empty req.protocol
      then scheme_or req.protocol (cut_before (codes "://") (raw_target req))
      else req.protocol

  -- the condition for the lookup of a MongoDB cluster
  unfoldable pub wants_node : TriggerRequest F64 → Str → Protocol → Bool
  wants_node req host proto =
      is_mongodbsrv proto
      || has_prefix (codes "mongodb+srv://") (to_lower req.uri)
      || has_prefix (codes "mongodb+srv://") (to_lower req.target)
      || has_suffix (codes ".mongodb.net") (to_lower host) && is_mongodb proto

  -- the target before its port is completed
  unfoldable pub named_target : Lookups → TriggerRequest F64 → TriggerTarget
  unfolding raw_target trigger_protocol wants_node
  named_target net req =
      let raw = raw_target req in
      let raw_url = if contains (codes "://") raw then raw else codes "https://" ++ raw in
      let (host, port) = place_of net raw req.port (net.parse_url raw_url) in
      let proto = (resolve_protocol_and_default_port (trigger_protocol req)).0 in
      let t : TriggerTarget = record {
        host = host;
        port = port;
        protocol = proto;
        service_name = req.service_name;
      } in
      if wants_node req host proto then first_node (net.lookup_srv host) t else t

  -- resolveTriggerTarget; `none` is its error
  unfoldable pub resolve_trigger_target : Lookups → TriggerRequest F64 → Option TriggerTarget
  unfolding named_target raw_target
  resolve_trigger_target net req =
      let def_port = (resolve_protocol_and_default_port (trigger_protocol req)).1 in
      let t = named_target net req in
      if is_empty (raw_target req)
      then none
      else some (record t { port = if t.port == 0 then port_or 443 def_port else t.port })

  -- buildPinger
  unfoldable pub trigger_pinger :
      TriggerTarget → Addr → Duration → TriggerRequest F64 → Construction
  trigger_pinger t ip timeout req = build_pinger (record {
    protocol = t.protocol;
    hostname = t.host;
    ip = ip;
    port = t.port;
    timeout = timeout;
    dialer = none;
    use_ipv4 = req.use_ipv4;
    use_ipv6 = req.use_ipv6;
    send_data = req.send_data;
    expect_data = req.expect_data;
    service_name = t.service_name;
    dns_hosts = [];
    start_tls = req.start_tls;
    fast_close = req.fast_close;
    uri = if is_empty req.uri && contains (codes "/") req.target then req.target else req.uri;
    tls_config = none;
    http_method = req.method;
    user_agent = req.user_agent;
    waf_mode = req.waf;
  })
