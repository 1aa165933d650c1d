-- ===== src/Config/Pool/Validity.antt =====
-- The pool of targets of internal/config/helpers.go: what each of its targets is.
use netping.Common.{
  ℕ, ◌<◌, ◌≡◌, refl, Str, codes, is_empty, false, not, Option, none, some, List, [], ◌∷◌, map, All,
  arith, if_cases, length, trim_space, split_on, select,
}
use netping.Consts.{Protocol}
use netping.Config.{
  ConfigError, Result, ok, fails, Lookups, TargetDef, all_uri_targets, parse_ports,
  split_and_trim_comma,
}
use netping.Config.Ports.{IsPort}
use netping.Config.Pool.{
  expand, not_empty, or_default, pool_of, pool_at, resolve_host_port_pool, resolve_target_pool,
}
use netping.Config.Pool.Targets.{Answers, HasWords, AreTargets, all_uri_targets-AreTargets}
use netping.Config.Pool.Combinations.{expand-AreTargets, parse_ports-IsPort}

select-not_empty :
    (ss : List Str) → All (λ h. is_empty h ≡ false) (select (λ t. not (is_empty t)) ss)
select-not_empty [] = tt
select-not_empty (s ∷ ss) =
    if_cases (All (λ h. is_empty h ≡ false)) (not (is_empty s))
      (λ e. (ground arith, select-not_empty ss)) (λ e. select-not_empty ss)

pieces-not_empty : (s : Str) → All (λ h. is_empty h ≡ false) (split_and_trim_comma s)
unfolding split_and_trim_comma
pieces-not_empty s = select-not_empty (map trim_space (split_on b',' s))

hosts-not_empty :
    (hosts : List Str)
    → All (λ h. is_empty h ≡ false) hosts
    → All (λ h. is_empty h ≡ false) (or_default (codes "127.0.0.1") hosts)
hosts-not_empty [] h = (refl, tt)
hosts-not_empty (s ∷ ss) h = h

module _ (service : Str) (net : Lookups) where
  -- The answer is an error, or some targets.
  IsPool : Result (List TargetDef) → Type 0
  IsPool = Answers (λ ts. AreTargets service net ts × (0 < length ts))

  not_empty-IsPool :
      (e : ConfigError) (r : Result (List TargetDef))
      → Answers (AreTargets service net) r
      → IsPool (not_empty e r)
  unfolding not_empty IsPool
  not_empty-IsPool e (fails x) h = tt
  not_empty-IsPool e (ok []) h = tt
  not_empty-IsPool e (ok (t ∷ ts)) h = (h, omega arith)

  module _ (words : HasWords net) where
    pool_of-IsPool :
        (protos : List Protocol) (h : Str) (r : Result (List ℕ))
        → ((ps : List ℕ) → r ≡ ok ps → All IsPort ps)
        → IsPool (pool_of net service protos h r)
    pool_of-IsPool protos h (fails e) k = unfold IsPool in tt
    pool_of-IsPool protos h (ok ports) k = not_empty-IsPool _ (expand net service _ protos ports) (
        expand-AreTargets service net words _ protos ports
          (hosts-not_empty (split_and_trim_comma h) (pieces-not_empty h)) (k ports refl))

    pool_at-IsPool :
        (protos : List Protocol) (o : Option Str) (ss : List Str)
        → IsPool (pool_at net service protos o ss)
    pool_at-IsPool protos none ss = unfold IsPool in tt
    pool_at-IsPool protos (some h) ss =
        pool_of-IsPool protos h (parse_ports ss) (parse_ports-IsPort ss)

    -- Whatever the flags say, `ResolveTargetPool` answers with an error or with at least one target,
    -- and each of its targets carries the name of the service, has a port of the range 1 to 65535,
    -- and has a host that is not empty, or else is a node of a MongoDB cluster: then an SRV record that
    -- the lookup of a cluster answered with gives its name and its port (27017 for port 0). The
    -- condition is that the lookup answers with ports of 16 bits.
    pub resolve_target_pool-IsPool :
        (host_str port_str uri_str proto_str : Str)
        → Answers
            (λ ts. AreTargets service net ts × (0 < length ts))
            (resolve_target_pool net host_str port_str uri_str proto_str service)
    unfolding resolve_target_pool resolve_host_port_pool IsPool
    resolve_target_pool-IsPool host_str port_str uri_str proto_str =
        if_cases IsPool (not (is_empty (trim_space uri_str)))
          (λ e.
            not_empty-IsPool _ (all_uri_targets net proto_str service _)
              (all_uri_targets-AreTargets service net words proto_str _))
          (λ e. pool_at-IsPool _ _ _)
