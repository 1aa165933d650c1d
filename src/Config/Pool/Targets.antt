-- ===== src/Config/Pool/Targets.antt =====
-- The pool of targets of internal/config/helpers.go: what a target is, and those of --uri.
use mathlib.Core.List.{Memᴰ}
use netping.Common.{
  codes, trim_suffix, ℕ, ◌<◌, ◌≡◌, refl, Str, is_empty, ◌==◌, false, ◌⊎◌, inl, inr, Option, none,
  some, List, [], ◌∷◌, map, All, All-append, arith, if_cases, if◌then◌else◌, trim_space,
}
use netping.Consts.{Protocol, mongodbs}
use netping.Config.{
  Result, ok, fails, Srv, Lookups, TargetDef, nodes_or, append_result, resolve_mongo_srv, srv_nodes,
  mongo_node, uri_targets, all_uri_targets, missing_host, uri_port, parse_host_port, located,
  uri_host_port, split_or, uri_protocol, wants_nodes,
}
use netping.Config.Ports.{IsPort, port_or-IsPort, port_or_small}

-- A target that is a node of a MongoDB cluster: its host is the name of an SRV record that the lookup
-- of some cluster answers with, less a dot at its end, and it has the port of the record or 27017.
pub record IsNode (net : Lookups) (t : TargetDef) : Type 0 where
  pub cluster : Str
  pub records : List Srv
  pub node : Srv
  pub found : net.lookup_srv cluster ≡ some records
  pub is_in : Memᴰ node records
  pub named : t.host ≡ trim_suffix (codes ".") node.target
  pub port : (t.port ≡ node.port) ⊎ ((node.port ≡ 0) × (t.port ≡ 27017))
  pub protocol : t.protocol ≡ mongodbs

-- A target to probe for a service: with a port of the range 1 to 65535, and with a host that is not
-- empty, or else a node of a MongoDB cluster.
pub record IsTarget (service : Str) (net : Lookups) (t : TargetDef) : Type 0 where
  pub port : IsPort t.port
  pub host : (is_empty t.host ≡ false) ⊎ IsNode net t
  pub service_name : t.service_name ≡ service

-- What every target of an answer is, where there is one.
abbrev pub Answers : (List TargetDef → Type 0) → Result (List TargetDef) → Type 0
Answers P (fails e) = Unit
Answers P (ok ts) = P ts

-- The answers of the lookup have ports of 16 bits.
abbrev pub HasWords : Lookups → Type 0
HasWords net =
    (name : Str) (srvs : List Srv)
    → net.lookup_srv name ≡ some srvs
    → All (λ s. s.port < 65536) srvs

module _ (service : Str) (net : Lookups) where
  abbrev pub AreTargets : List TargetDef → Type 0
  AreTargets ts = All (IsTarget service net) ts

  pub nodes_or-AreTargets :
      (r other : Result (List TargetDef))
      → Answers AreTargets r
      → Answers AreTargets other
      → Answers AreTargets (nodes_or r other)
  unfolding nodes_or
  nodes_or-AreTargets (fails e) other h k = k
  nodes_or-AreTargets (ok []) other h k = k
  nodes_or-AreTargets (ok (t ∷ ts)) other h k = h

  pub append_result-AreTargets :
      (r rest : Result (List TargetDef))
      → Answers AreTargets r
      → Answers AreTargets rest
      → Answers AreTargets (append_result r rest)
  unfolding append_result
  append_result-AreTargets (fails e) rest h k = tt
  append_result-AreTargets (ok ts) (fails e) h k = tt
  append_result-AreTargets (ok ts) (ok us) h k = All-append (IsTarget service net) ts us h k

  node_port :
      (s : Srv)
      → ((if s.port == 0 then 27017 else s.port) ≡ s.port)
        ⊎ ((s.port ≡ 0) × ((if s.port == 0 then 27017 else s.port) ≡ 27017))
  node_port s = ground arith

  mongo_node-IsTarget :
      (clean original : Str) (srvs : List Srv) (s : Srv)
      → net.lookup_srv clean ≡ some srvs
      → Memᴰ s srvs
      → s.port < 65536
      → IsTarget service net (mongo_node clean service original s)
  unfolding mongo_node
  mongo_node-IsTarget clean original srvs s found m h = record {
    port = if_cases IsPort (s.port == 0) (λ e. (omega arith, omega arith)) (λ e. (ground arith, h));
    host = inr (record {
      cluster = clean;
      records = srvs;
      node = s;
      found = found;
      is_in = m;
      named = refl;
      port = node_port s;
      protocol = refl;
    });
    service_name = refl;
  }

  nodes-AreTargets :
      (clean original : Str) (records srvs : List Srv)
      → net.lookup_srv clean ≡ some records
      → ((s : Srv) → Memᴰ s srvs → Memᴰ s records)
      → All (λ s. s.port < 65536) srvs
      → AreTargets (map (mongo_node clean service original) srvs)
  nodes-AreTargets clean original records [] found m h = tt
  nodes-AreTargets clean original records (s ∷ srvs) found m h = (
    mongo_node-IsTarget clean original records s found (m s (Memᴰ.head refl)) h.0,
    nodes-AreTargets clean original records srvs found (λ r k. m r (Memᴰ.tail k)) h.1,
  )

  srv_nodes-AreTargets :
      (clean original : Str) (o : Option (List Srv))
      → net.lookup_srv clean ≡ o
      → ((srvs : List Srv) → o ≡ some srvs → All (λ s. s.port < 65536) srvs)
      → Answers AreTargets (srv_nodes clean service original o)
  srv_nodes-AreTargets clean original none e h = tt
  srv_nodes-AreTargets clean original (some []) e h = tt
  srv_nodes-AreTargets clean original (some (s ∷ srvs)) e h =
      nodes-AreTargets clean original (s ∷ srvs) (s ∷ srvs) e (λ r m. m) (h (s ∷ srvs) refl)

  module _ (words : HasWords net) where
    pub resolve_mongo_srv-AreTargets :
        (host original : Str) → Answers AreTargets (resolve_mongo_srv net host service original)
    unfolding resolve_mongo_srv
    resolve_mongo_srv-AreTargets host original =
        if_cases (Answers AreTargets) (is_empty (trim_space host)) (λ e. tt)
          (λ e.
            srv_nodes-AreTargets (trim_space host) original (net.lookup_srv (trim_space host)) refl
              (words (trim_space host)))

    uri_port-IsPort : (p : Protocol) → IsPort (uri_port p)
    unfolding uri_port
    uri_port-IsPort p = port_or-IsPort 443 _ (omega arith, omega arith)

    parse_host_port_small : (raw : Str) (o : Option (Str × Str)) → (split_or raw 0 o).1 < 65536
    parse_host_port_small raw none = omega arith
    parse_host_port_small raw (some (h, p)) = port_or_small 0 p (omega arith)

    located_small : (raw : Str) (o : Option (Str × Str)) → (located net raw o).1 < 65536
    unfolding parse_host_port
    located_small raw none = parse_host_port_small raw (net.split_host_port raw)
    located_small raw (some (h, p)) =
        if_cases {A = Str × ℕ} (λ x. x.1 < 65536) (is_empty h)
          (λ e. parse_host_port_small raw (net.split_host_port raw))
          (λ e.
            if_cases (λ n. n < 65536) (is_empty p) (λ _. omega arith)
              (λ _. port_or_small 0 p (omega arith)))

    uri_targets-AreTargets :
        (proto_str raw : Str) → Answers AreTargets (uri_targets net proto_str service raw)
    unfolding uri_targets uri_host_port
    uri_targets-AreTargets proto_str raw =
        if_cases (Answers AreTargets) (wants_nodes proto raw hp.0)
          (λ e.
            nodes_or-AreTargets (resolve_mongo_srv net hp.0 service raw) _
              (resolve_mongo_srv-AreTargets hp.0 raw) one)
          (λ e. one)
      where
        proto : Protocol
        proto = uri_protocol proto_str raw

        hp : Str × ℕ
        hp = uri_host_port net raw

        one : Answers AreTargets (
            if is_empty hp.0
            then fails (missing_host raw)
            else ok (
                record {
                  host = hp.0;
                  port = if hp.1 == 0 then uri_port proto else hp.1;
                  protocol = proto;
                  service_name = service;
                  uri = raw;
                }
                ∷ []))
        one =
            if_cases (Answers AreTargets) (is_empty hp.0) (λ e. tt)
              (λ e. (
                record {
                  port =
                      if_cases IsPort (hp.1 == 0) (λ z. uri_port-IsPort proto)
                        (λ z. (ground arith, located_small raw _));
                  host = inl e;
                  service_name = refl;
                },
                tt,
              ))

    pub all_uri_targets-AreTargets :
        (proto_str : Str) (raws : List Str)
        → Answers AreTargets (all_uri_targets net proto_str service raws)
    unfolding all_uri_targets
    all_uri_targets-AreTargets proto_str [] = tt
    all_uri_targets-AreTargets proto_str (raw ∷ raws) =
        append_result-AreTargets (uri_targets net proto_str service raw) _
          (uri_targets-AreTargets proto_str raw) (all_uri_targets-AreTargets proto_str raws)
