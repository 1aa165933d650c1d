-- ===== src/Config/Pool/Combinations.antt =====
-- The pool of targets of internal/config/helpers.go: the targets of the expansion.
use netping.Common.{
  ℕ, ◌≡◌, refl, subst, Str, is_empty, ◌==◌, ltb, false, ◌&&◌, inl, List, [], ◌∷◌, All, All-append,
  if_cases, length,
}
use netping.Consts.{Protocol}
use netping.Config.{
  Result, ok, fails, Lookups, resolve_mongo_srv, auto_port, parse_ports, cons_port,
  convert_and_validate_port,
}
use netping.Config.Ports.{IsPort, auto_port-IsPort, convert_and_validate_port_lem}
use netping.Config.Pool.{
  one_target, auto_targets, auto_host, auto_hosts, paired_host, paired_hosts, product_port,
  product_host, product_hosts, expand, host_wants_nodes,
}
use netping.Config.Pool.Targets.{
  IsTarget, Answers, HasWords, AreTargets, nodes_or-AreTargets, append_result-AreTargets,
  resolve_mongo_srv-AreTargets,
}

cons_port-IsPort :
    (r : Result ℕ) (rest : Result (List ℕ)) (ps : List ℕ)
    → ((p : ℕ) → r ≡ ok p → IsPort p)
    → ((qs : List ℕ) → rest ≡ ok qs → All IsPort qs)
    → cons_port r rest ≡ ok ps
    → All IsPort ps
cons_port-IsPort (fails e) rest ps h k f = cc
cons_port-IsPort (ok p) (fails e) ps h k f = cc
cons_port-IsPort (ok p) (ok qs) ps h k f =
    let e : p ∷ qs ≡ ps = cc in subst (All IsPort) e (h p refl, k qs refl)

pub parse_ports-IsPort : (ss : List Str) (ps : List ℕ) → parse_ports ss ≡ ok ps → All IsPort ps
unfolding parse_ports
parse_ports-IsPort [] ps h = let e : [] ≡ ps = cc in subst (All IsPort) e tt
parse_ports-IsPort (s ∷ ss) ps h =
    cons_port-IsPort (convert_and_validate_port s) (parse_ports ss) ps
      (λ p e. ((convert_and_validate_port_lem s p).0 e).0) (parse_ports-IsPort ss) h

module _ (service : Str) (net : Lookups) where
  one_target-IsTarget :
      (host : Str) (port : ℕ) (proto : Protocol)
      → is_empty host ≡ false
      → IsPort port
      → IsTarget service net (one_target service host port proto)
  one_target-IsTarget host port proto h p = record { port = p; host = inl h; service_name = refl }

  paired_host-AreTargets :
      (host : Str) (ports : List ℕ) (protos : List Protocol)
      → is_empty host ≡ false
      → All IsPort ports
      → AreTargets service net (paired_host service host ports protos)
  unfolding paired_host
  paired_host-AreTargets host [] protos h k = tt
  paired_host-AreTargets host (port ∷ ports) [] h k = tt
  paired_host-AreTargets host (port ∷ ports) (proto ∷ protos) h k =
      (one_target-IsTarget host port proto h k.0, paired_host-AreTargets host ports protos h k.1)

  paired_hosts-AreTargets :
      (ports : List ℕ) (protos : List Protocol) (hosts : List Str)
      → All (λ h. is_empty h ≡ false) hosts
      → All IsPort ports
      → AreTargets service net (paired_hosts service ports protos hosts)
  unfolding paired_hosts
  paired_hosts-AreTargets ports protos [] h k = tt
  paired_hosts-AreTargets ports protos (host ∷ hosts) h k =
      All-append (IsTarget service net) (paired_host service host ports protos) _
        (paired_host-AreTargets host ports protos h.0 k)
        (paired_hosts-AreTargets ports protos hosts h.1 k)

  product_port-AreTargets :
      (host : Str) (port : ℕ) (protos : List Protocol)
      → is_empty host ≡ false
      → IsPort port
      → AreTargets service net (product_port service host port protos)
  unfolding product_port
  product_port-AreTargets host port [] h k = tt
  product_port-AreTargets host port (proto ∷ protos) h k =
      (one_target-IsTarget host port proto h k, product_port-AreTargets host port protos h k)

  product_host-AreTargets :
      (host : Str) (protos : List Protocol) (ports : List ℕ)
      → is_empty host ≡ false
      → All IsPort ports
      → AreTargets service net (product_host service host protos ports)
  unfolding product_host
  product_host-AreTargets host protos [] h k = tt
  product_host-AreTargets host protos (port ∷ ports) h k =
      All-append (IsTarget service net) (product_port service host port protos) _
        (product_port-AreTargets host port protos h k.0)
        (product_host-AreTargets host protos ports h k.1)

  product_hosts-AreTargets :
      (protos : List Protocol) (ports : List ℕ) (hosts : List Str)
      → All (λ h. is_empty h ≡ false) hosts
      → All IsPort ports
      → AreTargets service net (product_hosts service protos ports hosts)
  unfolding product_hosts
  product_hosts-AreTargets protos ports [] h k = tt
  product_hosts-AreTargets protos ports (host ∷ hosts) h k =
      All-append (IsTarget service net) (product_host service host protos ports) _
        (product_host-AreTargets host protos ports h.0 k)
        (product_hosts-AreTargets protos ports hosts h.1 k)

  module _ (words : HasWords net) where
    auto_targets-AreTargets :
        (host : Str) (proto : Protocol)
        → is_empty host ≡ false
        → Answers (AreTargets service net) (auto_targets net service host proto)
    unfolding auto_targets
    auto_targets-AreTargets host proto h =
        if_cases (Answers (AreTargets service net)) (host_wants_nodes proto host)
          (λ e.
            nodes_or-AreTargets service net (resolve_mongo_srv net host service [])
              (ok (one_target service host (auto_port proto) proto ∷ []))
              (resolve_mongo_srv-AreTargets service net words host [])
              (one_target-IsTarget host (auto_port proto) proto h (auto_port-IsPort proto), tt))
          (λ e. (one_target-IsTarget host (auto_port proto) proto h (auto_port-IsPort proto), tt))

    auto_host-AreTargets :
        (host : Str) (protos : List Protocol)
        → is_empty host ≡ false
        → Answers (AreTargets service net) (auto_host net service host protos)
    unfolding auto_host
    auto_host-AreTargets host [] h = tt
    auto_host-AreTargets host (proto ∷ protos) h =
        append_result-AreTargets service net (auto_targets net service host proto) _
          (auto_targets-AreTargets host proto h) (auto_host-AreTargets host protos h)

    auto_hosts-AreTargets :
        (protos : List Protocol) (hosts : List Str)
        → All (λ h. is_empty h ≡ false) hosts
        → Answers (AreTargets service net) (auto_hosts net service protos hosts)
    unfolding auto_hosts
    auto_hosts-AreTargets protos [] h = tt
    auto_hosts-AreTargets protos (host ∷ hosts) h =
        append_result-AreTargets service net (auto_host net service host protos) _
          (auto_host-AreTargets host protos h.0) (auto_hosts-AreTargets protos hosts h.1)

    pub expand-AreTargets :
        (hosts : List Str) (protos : List Protocol) (ports : List ℕ)
        → All (λ h. is_empty h ≡ false) hosts
        → All IsPort ports
        → Answers (AreTargets service net) (expand net service hosts protos ports)
    unfolding expand
    expand-AreTargets hosts protos ports h k =
        if_cases (Answers (AreTargets service net)) (length ports == 0)
          (λ e. auto_hosts-AreTargets protos hosts h)
          (λ e.
            if_cases (Answers (AreTargets service net))
              (ltb 1 (length protos) && length ports == length protos)
              (λ f. paired_hosts-AreTargets ports protos hosts h k)
              (λ f. product_hosts-AreTargets protos ports hosts h k))
