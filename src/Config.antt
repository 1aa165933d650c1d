-- ===== src/Config.antt =====
-- internal/config/helpers.go: ports, protocols, the pool of targets that the flags ask for, and the
-- comparison of versions.
pub mod Ports
pub mod Pool
pub mod Versions
use netping.Common.{
  ℕ, zero, suc, ◌+◌, Str, codes, str_eq, is_empty, trim_space, to_lower, has_prefix, has_suffix,
  contains, cut_before, split_on, trim_suffix, itoa, atoi, parse_uint, ltb, ◌==◌, Bool, true, false,
  not, ◌&&◌, ◌||◌, Option, none, some, List, [], ◌∷◌, ◌++◌, length, ℤ, pos, negsuc, to_bits, ◌%◌,
  select, map, if◌then◌else◌,
}
use netping.Consts.{
  Protocol, tcp, protocol_str, o365, s3, azureblob, gcs, entra, mongodb, mongodbs, mongodbsrv,
}
use netping.Consts.Protocols.{normalize_protocol}

-- The errors, by what they say.
pub data ConfigError : Type 0 where
  invalid_port : Str → ConfigError
  port_zero : ConfigError
  empty_cluster : ConfigError
  srv_failed : Str → ConfigError
  no_srv_records : Str → ConfigError
  missing_host : Str → ConfigError
  no_valid_uri : ConfigError
  no_target : ConfigError
  none_resolved : ConfigError

pub data Result (A : Type 0) : Type 0 where
  ok : A → Result A
  fails : ConfigError → Result A

abbrev pub checked_port : Str → Option ℕ → Result ℕ
checked_port port none = fails (invalid_port port)
checked_port port (some zero) = fails port_zero
checked_port port (some (suc n)) = ok (suc n)

-- convertAndValidatePort
unfoldable pub convert_and_validate_port : Str → Result ℕ
convert_and_validate_port port = checked_port port (parse_uint 65536 port)

-- A record that net.LookupSRV answers with.
pub record Srv : Type 0 where
  pub target : Str
  pub port : ℕ

-- What the resolution calls outside the program: url.Parse with Hostname and Port of its result,
-- net.SplitHostPort, and net.LookupSRV("mongodb", "tcp", name). `none` is an error.
pub record Lookups : Type 0 where
  pub parse_url : Str → Option (Str × Str)
  pub split_host_port : Str → Option (Str × Str)
  pub lookup_srv : Str → Option (List Srv)

abbrev pub positive_or : ℕ → Option ℕ → ℕ
positive_or other none = other
positive_or other (some zero) = other
positive_or other (some (suc n)) = suc n

-- `if parsed, err := strconv.ParseUint(p, 10, 16); err == nil && parsed > 0`, and the port otherwise
unfoldable pub port_or : ℕ → Str → ℕ
port_or other p = positive_or other (parse_uint 65536 p)

abbrev pub split_or : Str → ℕ → Option (Str × Str) → Str × ℕ
split_or target default_port none = (target, default_port)
split_or target default_port (some (h, p)) = (h, port_or default_port p)

-- ParseHostPort
unfoldable pub parse_host_port : Lookups → Str → ℕ → Str × ℕ
parse_host_port net target default_port = split_or target default_port (net.split_host_port target)

unfoldable pub separate_args : Str → List Str → Str × Str
separate_args a [] = (a, [])
separate_args a (b ∷ args) = (a, b)

-- ParseHostPortArgs
unfoldable pub parse_host_port_args : Lookups → List Str → Str × Str
unfolding separate_args
parse_host_port_args net [] = ([], [])
parse_host_port_args net (a ∷ args) = elim (net.split_host_port a) [
  | none ↦ separate_args a args
  | some hp ↦ hp
]

-- the `switch proto` over the protocols with a default endpoint
unfoldable pub default_target : Protocol → Str
default_target o365 = codes "outlook.office365.com"
default_target s3 = codes "s3.amazonaws.com"
default_target azureblob = codes "blob.core.windows.net"
default_target gcs = codes "storage.googleapis.com"
default_target entra = codes "login.microsoftonline.com"
default_target _ = []

-- ResolveProtocolAndPort
unfoldable pub resolve_protocol_and_port : Str → Str → Str → Protocol × Str × Str
unfolding default_target
resolve_protocol_and_port protocol_string port target =
    let (proto, default_port, known) = normalize_protocol protocol_string in
    let p = if known then proto else tcp in
    (
      p,
      if is_empty port
            && not (str_eq (to_lower (trim_space protocol_string)) (codes "udp"))
            && known
          then itoa default_port
          else port,
      if is_empty target then default_target p else target,
    )

pub record TargetDef : Type 0 where
  pub host : Str
  pub port : ℕ
  pub protocol : Protocol
  pub service_name : Str
  pub uri : Str

-- splitAndTrimComma
unfoldable pub split_and_trim_comma : Str → List Str
split_and_trim_comma s = select (λ t. not (is_empty t)) (map trim_space (split_on b',' s))

-- one round of the loop of ResolveMongoSRV
unfoldable pub mongo_node : Str → Str → Str → Srv → TargetDef
mongo_node clean_host service original addr = record {
  host = trim_suffix (codes ".") addr.target;
  port = if addr.port == 0 then 27017 else addr.port;
  protocol = mongodbs;
  service_name = service;
  uri = if is_empty original then codes "mongodb+srv://" ++ clean_host else original;
}

abbrev pub srv_nodes : Str → Str → Str → Option (List Srv) → Result (List TargetDef)
srv_nodes clean_host service original none = fails (srv_failed clean_host)
srv_nodes clean_host service original (some []) = fails (no_srv_records clean_host)
srv_nodes clean_host service original (some (addr ∷ addrs)) =
    ok (map (mongo_node clean_host service original) (addr ∷ addrs))

-- ResolveMongoSRV
unfoldable pub resolve_mongo_srv : Lookups → Str → Str → Str → Result (List TargetDef)
unfolding mongo_node
resolve_mongo_srv net cluster_host service original =
    let clean_host = trim_space cluster_host in
    if is_empty clean_host
    then fails empty_cluster
    else srv_nodes clean_host service original (net.lookup_srv clean_host)

-- `targets = append(targets, srvTargets...); continue` where the lookup succeeds
unfoldable pub nodes_or :
    Result (List TargetDef) → Result (List TargetDef) → Result (List TargetDef)
nodes_or (fails e) other = other
nodes_or (ok []) other = other
nodes_or (ok (t ∷ ts)) other = ok (t ∷ ts)

-- `proto == p`, for the two protocols asked about
abbrev pub is_mongodb : Protocol → Bool
is_mongodb mongodb = true
is_mongodb mongodbs = true
is_mongodb _ = false

abbrev pub is_mongodbsrv : Protocol → Bool
is_mongodbsrv mongodbsrv = true
is_mongodbsrv _ = false

-- the protocol of an entry of --uri
unfoldable pub uri_protocol : Str → Str → Protocol
uri_protocol proto_str raw =
    if not (is_empty proto_str)
    then (resolve_protocol_and_port proto_str [] []).0
    else elim (cut_before (codes "://") raw) [
      | none ↦ tcp
      | some scheme ↦ (resolve_protocol_and_port scheme [] []).0
    ]

abbrev pub located : Lookups → Str → Option (Str × Str) → Str × ℕ
located net raw none = parse_host_port net raw 0
located net raw (some (hostname, port)) =
    if is_empty hostname
    then parse_host_port net raw 0
    else (hostname, if is_empty port then 0 else port_or 0 port)

-- the host and the port of an entry of --uri, 0 where it names none
unfoldable pub uri_host_port : Lookups → Str → Str × ℕ
unfolding port_or parse_host_port
uri_host_port net raw =
    located net raw
      (net.parse_url (if contains (codes "://") raw then raw else codes "https://" ++ raw))

-- the condition for the lookup of the nodes of an entry of --uri
unfoldable pub wants_nodes : Protocol → Str → Str → Bool
wants_nodes proto raw h =
    is_mongodbsrv proto
    || has_prefix (codes "mongodb+srv://") (to_lower raw)
    || has_prefix (codes "mongo+srv://") (to_lower raw)
    || has_suffix (codes ".mongodb.net") (to_lower h) && is_mongodb proto

-- the default port of a protocol's name, 443 where it has none
unfoldable pub uri_port : Protocol → ℕ
unfolding port_or
uri_port proto = port_or 443 (resolve_protocol_and_port (protocol_str proto) [] []).1

-- one round of the loop over the entries of --uri: the targets that it adds
unfoldable pub uri_targets : Lookups → Str → Str → Str → Result (List TargetDef)
unfolding nodes_or
uri_targets net proto_str service raw =
    let proto = uri_protocol proto_str raw in
    let (h, p) = uri_host_port net raw in
    let one : Result (List TargetDef) =
      if is_empty h
      then fails (missing_host raw)
      else ok (
          record {
            host = h;
            port = if p == 0 then uri_port proto else p;
            protocol = proto;
            service_name = service;
            uri = raw;
          }
          ∷ []) in
    if wants_nodes proto raw h then nodes_or (resolve_mongo_srv net h service raw) one else one

-- `targets = append(targets, ...)` in a loop that an error leaves
unfoldable pub append_result :
    Result (List TargetDef) → Result (List TargetDef) → Result (List TargetDef)
append_result (fails e) rest = fails e
append_result (ok ts) (fails e) = fails e
append_result (ok ts) (ok us) = ok (ts ++ us)

-- the loop over the entries of --uri
unfoldable pub all_uri_targets : Lookups → Str → Str → List Str → Result (List TargetDef)
unfolding append_result
all_uri_targets net proto_str service [] = ok []
all_uri_targets net proto_str service (raw ∷ raws) =
    append_result (uri_targets net proto_str service raw)
      (all_uri_targets net proto_str service raws)

abbrev pub cons_port : Result ℕ → Result (List ℕ) → Result (List ℕ)
cons_port (fails e) rest = fails e
cons_port (ok p) (fails e) = fails e
cons_port (ok p) (ok ps) = ok (p ∷ ps)

-- the loop over the entries of --port
unfoldable pub parse_ports : List Str → Result (List ℕ)
parse_ports [] = ok []
parse_ports (s ∷ ss) = cons_port (convert_and_validate_port s) (parse_ports ss)

-- uint16(defPort), for `defPort, _ := strconv.Atoi(defPortStr)` with 443 in place of 0
abbrev pub as_port : Option ℤ → ℕ
as_port none = 443
as_port (some (pos zero)) = 443
as_port (some (pos (suc n))) = suc n % 65536
as_port (some (negsuc n)) = to_bits (negsuc n) % 65536

unfoldable pub auto_port : Protocol → ℕ
auto_port proto = as_port (atoi (resolve_protocol_and_port (protocol_str proto) [] []).1)
