-- ===== src/Config/Pool.antt =====
-- internal/config/helpers.go: ResolveTargetPool.
pub mod Combinations
pub mod Expansion
pub mod Targets
pub mod Validity
use netping.Common.{
  ℕ, zero, suc, Str, codes, str_eq, is_empty, trim_space, to_lower, has_suffix, ltb, ◌==◌, Bool,
  true, false, not, ◌&&◌, ◌||◌, List, [], ◌∷◌, ◌++◌, length, map, if◌then◌else◌, Option, none, some,
}
use netping.Consts.{Protocol, tcp, mongodb, mongodbs, mongodbsrv}
use netping.Config.{
  ConfigError, Result, ok, fails, no_valid_uri, no_target, none_resolved, Lookups, TargetDef,
  split_and_trim_comma, parse_ports, all_uri_targets, append_result, resolve_protocol_and_port,
  resolve_mongo_srv, nodes_or, auto_port,
}

-- the condition for the lookup of the nodes of a host without a port
unfoldable pub host_wants_nodes : Protocol → Str → Bool
host_wants_nodes mongodbsrv host = true
host_wants_nodes mongodb host = has_suffix (codes ".mongodb.net") (to_lower host)
host_wants_nodes mongodbs host = has_suffix (codes ".mongodb.net") (to_lower host)
host_wants_nodes tcp host = has_suffix (codes ".mongodb.net") (to_lower host)
host_wants_nodes _ host = false

-- a target of the loops over hosts, ports and protocols
abbrev pub one_target : Str → Str → ℕ → Protocol → TargetDef
one_target service host port proto = record {
  host = host;
  port = port;
  protocol = proto;
  service_name = service;
  uri = [];
}

-- one round of the loops without ports
unfoldable pub auto_targets : Lookups → Str → Str → Protocol → Result (List TargetDef)
unfolding host_wants_nodes
auto_targets net service host proto =
    let one = ok (one_target service host (auto_port proto) proto ∷ []) in
    if host_wants_nodes proto host
    then nodes_or (resolve_mongo_srv net host service []) one
    else one

-- the loop over the protocols of a host, and the loop over the hosts
unfoldable pub auto_host : Lookups → Str → Str → List Protocol → Result (List TargetDef)
auto_host net service host [] = ok []
auto_host net service host (proto ∷ protos) =
    append_result (auto_targets net service host proto) (auto_host net service host protos)

unfoldable pub auto_hosts : Lookups → Str → List Protocol → List Str → Result (List TargetDef)
auto_hosts net service protos [] = ok []
auto_hosts net service protos (host ∷ hosts) =
    append_result (auto_host net service host protos) (auto_hosts net service protos hosts)

-- the 1-to-1 loop over the protocols of a host, which has a port for each
unfoldable pub paired_host : Str → Str → List ℕ → List Protocol → List TargetDef
paired_host service host (port ∷ ports) (proto ∷ protos) =
    one_target service host port proto ∷ paired_host service host ports protos
paired_host service host _ _ = []

unfoldable pub paired_hosts : Str → List ℕ → List Protocol → List Str → List TargetDef
paired_hosts service ports protos [] = []
paired_hosts service ports protos (host ∷ hosts) =
    paired_host service host ports protos ++ paired_hosts service ports protos hosts

-- the Cartesian product: the loop over the protocols, over the ports and over the hosts
unfoldable pub product_port : Str → Str → ℕ → List Protocol → List TargetDef
product_port service host port protos = map (one_target service host port) protos

unfoldable pub product_host : Str → Str → List Protocol → List ℕ → List TargetDef
product_host service host protos [] = []
product_host service host protos (port ∷ ports) =
    product_port service host port protos ++ product_host service host protos ports

unfoldable pub product_hosts : Str → List Protocol → List ℕ → List Str → List TargetDef
product_hosts service protos ports [] = []
product_hosts service protos ports (host ∷ hosts) =
    product_host service host protos ports ++ product_hosts service protos ports hosts

-- the combinatorial expansion
unfoldable pub expand : Lookups → Str → List Str → List Protocol → List ℕ → Result (List TargetDef)
expand net service hosts protos ports =
    if length ports == 0
    then auto_hosts net service protos hosts
    else if ltb 1 (length protos) && length ports == length protos
    then ok (paired_hosts service ports protos hosts)
    else ok (product_hosts service protos ports hosts)

-- `if len(targets) == 0 { return nil, ... }; return targets, nil`
unfoldable pub not_empty : ConfigError → Result (List TargetDef) → Result (List TargetDef)
not_empty e (fails x) = fails x
not_empty e (ok []) = fails e
not_empty e (ok (t ∷ ts)) = ok (t ∷ ts)

-- `if len(xs) == 0 { xs = ... }`
abbrev pub or_default {ℓ} : {A : Type ℓ} → A → List A → List A
or_default a [] = a ∷ []
or_default a (x ∷ xs) = x ∷ xs

-- the protocols that --protocol names
unfoldable pub pool_protocols : Str → List Protocol
pool_protocols proto_str =
    or_default tcp
      (map (λ s. (resolve_protocol_and_port s [] []).0) (split_and_trim_comma proto_str))

-- the host of --host, or the default endpoint of the protocol where neither host nor port is given;
-- `none` is the error that there is no target
unfoldable pub pool_host : Str → Str → Str → Option Str
pool_host host_str port_str proto_str =
    let def_target = (resolve_protocol_and_port proto_str [] []).2 in
    if is_empty host_str && is_empty port_str
    then (if is_empty proto_str || is_empty def_target then none else some def_target)
    else some host_str

abbrev pub pool_of : Lookups → Str → List Protocol → Str → Result (List ℕ) → Result (List TargetDef)
pool_of net service protos h (fails e) = fails e
pool_of net service protos h (ok ports) =
    not_empty none_resolved
      (expand net service (or_default (codes "127.0.0.1") (split_and_trim_comma h)) protos ports)

abbrev pub pool_at : Lookups → Str → List Protocol → Option Str → List Str → Result (List TargetDef)
pool_at net service protos none ports = fails no_target
pool_at net service protos (some h) ports = pool_of net service protos h (parse_ports ports)

-- the part of ResolveTargetPool for --host, --port and --protocol, which are trimmed
unfoldable pub resolve_host_port_pool : Lookups → Str → Str → Str → Str → Result (List TargetDef)
unfolding pool_host
resolve_host_port_pool net host_str port_str proto_str service =
    pool_at net service (pool_protocols proto_str) (pool_host host_str port_str proto_str)
      (split_and_trim_comma port_str)

-- ResolveTargetPool
unfoldable pub resolve_target_pool : Lookups → Str → Str → Str → Str → Str → Result (List TargetDef)
unfolding resolve_host_port_pool
resolve_target_pool net host_str port_str uri_str proto_str service =
    if not (is_empty (trim_space uri_str))
    then not_empty no_valid_uri
        (all_uri_targets net proto_str service (split_and_trim_comma uri_str))
    else resolve_host_port_pool net (trim_space host_str) (trim_space port_str)
        (trim_space proto_str) service
