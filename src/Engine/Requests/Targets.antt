-- ===== src/Engine/Requests/Targets.antt =====
-- The targets that trigger requests name (pkg/engine/dynamic.go).
use netping.Common.{
  ℕ, ◌<◌, ◌≡◌, refl, Str, codes, is_empty, contains, Bool, true, false, not, ◌&&◌, ◌==◌, Option,
  none, some, List, [], ◌∷◌, ◌++◌, All, arith, if_cases, if◌then◌else◌,
}
use netping.Config.{Srv, Lookups}
use netping.Config.Ports.{IsPort, port_or-IsPort, port_or_small}
use netping.Config.Pool.Targets.{HasWords}
use netping.Engine.Requests.{
  TriggerRequest, TriggerTarget, resolve_protocol_and_default_port, place_of, first_node,
  raw_target, trigger_protocol, wants_node, named_target, resolve_trigger_target, split_target,
}

-- The port of a target, where it has one.
abbrev pub HasPort : Option TriggerTarget → Type 0
HasPort none = Unit
HasPort (some t) = IsPort t.port

module _ (net : Lookups) where
  split_target_small :
      (raw : Str) (port : ℕ) (o : Option (Str × Str))
      → port < 65536
      → (split_target raw port o).1 < 65536
  split_target_small raw port none h = h
  split_target_small raw port (some (host, p)) h =
      if_cases (λ n. n < 65536) (port == 0) (λ e. port_or_small port p h) (λ e. h)

  place_of_small :
      (raw : Str) (port : ℕ) (o : Option (Str × Str))
      → port < 65536
      → (place_of net raw port o).1 < 65536
  place_of_small raw port none h = split_target_small raw port (net.split_host_port raw) h
  place_of_small raw port (some (hostname, p)) h =
      if_cases {A = Str × ℕ} (λ x. x.1 < 65536) (is_empty hostname)
        (λ e. split_target_small raw port (net.split_host_port raw) h)
        (λ e.
          if_cases (λ n. n < 65536) (port == 0 && not (is_empty p)) (λ f. port_or_small port p h)
            (λ f. h))

first_node_small :
    (o : Option (List Srv)) (t : TriggerTarget)
    → ((srvs : List Srv) → o ≡ some srvs → All (λ s. s.port < 65536) srvs)
    → t.port < 65536
    → (first_node o t).port < 65536
first_node_small none t words h = h
first_node_small (some []) t words h = h
first_node_small (some (s ∷ srvs)) t words h = (words (s ∷ srvs) refl).0

node_or_small :
    (b : Bool) (o : Option (List Srv)) (t : TriggerTarget)
    → ((srvs : List Srv) → o ≡ some srvs → All (λ s. s.port < 65536) srvs)
    → t.port < 65536
    → (if b then first_node o t else t).port < 65536
node_or_small true o t words h = first_node_small o t words h
node_or_small false o t words h = h

module _ {F64 : Type 0} (net : Lookups) (words : HasWords net) where
  named_target_small :
      (req : TriggerRequest F64) → req.port < 65536 → (named_target net req).port < 65536
  unfolding named_target
  named_target_small req h =
      let raw = raw_target req in
      let raw_url = if contains (codes "://") raw then raw else codes "https://" ++ raw in
      let (host, port) = place_of net raw req.port (net.parse_url raw_url) in
      let proto = (resolve_protocol_and_default_port (trigger_protocol req)).0 in
      node_or_small (wants_node req host proto) (net.lookup_srv host)
        (record { host = host; port = port; protocol = proto; service_name = req.service_name })
        (words host) (place_of_small net raw req.port (net.parse_url raw_url) h)

  -- A target that is found has a port of the range 1 to 65535, whatever the request says, where the
  -- lookup of a cluster answers with ports of 16 bits.
  pub resolve_trigger_target-HasPort :
      (req : TriggerRequest F64) → req.port < 65536 → HasPort (resolve_trigger_target net req)
  unfolding resolve_trigger_target
  resolve_trigger_target-HasPort req h =
      if_cases HasPort (is_empty (raw_target req)) (λ e. tt)
        (λ e.
          if_cases IsPort ((named_target net req).port == 0)
            (λ z. port_or-IsPort 443 _ (omega arith, omega arith))
            (λ z. (ground arith, named_target_small req h)))
