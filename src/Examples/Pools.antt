-- ===== src/Examples/Pools.antt =====
-- The theorems on pools of targets, ports and versions at concrete inputs.
use netping.Common.{
  ℕ, ◌≡◌, ◌↔◌, ◌+◌, ◌*◌, ◌<◌, refl, subst, List, codes, parse_uint, none, some, [], ◌∷◌, All,
  length, get_elem?, arith,
}
use netping.Consts.{tcp, https}
use netping.Config.{ok, Srv, Lookups, convert_and_validate_port}
use netping.Config.Ports.{IsPort, convert_and_validate_port_lem}
use netping.Config.Pool.{one_target, product_hosts, resolve_target_pool}
use netping.Config.Pool.Targets.{Answers, HasWords, AreTargets}
use netping.Config.Pool.Validity.{resolve_target_pool-IsPool}
use netping.Config.Pool.Expansion.{product_hosts_lem}
use netping.Config.Versions.{compare_versions, version_text, compare_numbers, compare_versions_lem}

-- a network where every cluster has two nodes, and no text is a URL or a host with a port
abbrev pub network : Lookups
network = record {
  parse_url = λ s. none;
  split_host_port = λ s. none;
  lookup_srv = λ name. some (
      record { target = codes "a.example.org."; port = 27018 }
      ∷ record { target = codes "b.example.org."; port = 0 }
      ∷ []);
}

pub network-HasWords : HasWords network
network-HasWords name srvs h =
    subst (All (λ s. s.port < 65536)) (some_inj h) (omega arith, (omega arith, tt))
  where
    some_inj : {xs ys : List Srv} → some xs ≡ some ys → xs ≡ ys
    some_inj e = cc

convert_and_validate_port_lem_example :
    (convert_and_validate_port (codes "8080") ≡ ok 8080)
    ↔ (IsPort 8080 × (parse_uint 65536 (codes "8080") ≡ some 8080))
convert_and_validate_port_lem_example = convert_and_validate_port_lem (codes "8080") 8080

resolve_target_pool-IsPool_example :
    Answers
      (λ ts. AreTargets (codes "svc") network ts × (0 < length ts))
      (resolve_target_pool network
        (codes "c.mongodb.net,web")
        []
        []
        (codes "mongodb, https")
        (codes "svc"))
resolve_target_pool-IsPool_example =
    resolve_target_pool-IsPool (codes "svc") network network-HasWords (codes "c.mongodb.net,web") []
      [] (codes "mongodb, https")

abbrev some_ports : List ℕ
some_ports = 80 ∷ 443 ∷ []

product_hosts_lem_example :
    (get_elem?
        (product_hosts [] (tcp ∷ https ∷ []) some_ports (codes "a" ∷ codes "b" ∷ []))
        ((1 * length some_ports + 0) * length (tcp ∷ https ∷ []) + 1)
      ≡ some (one_target [] (codes "b") 80 https))
    × (length (product_hosts [] (tcp ∷ https ∷ []) some_ports (codes "a" ∷ codes "b" ∷ []))
        ≡ length (codes "a" ∷ codes "b" ∷ []) * (length some_ports * length (tcp ∷ https ∷ [])))
product_hosts_lem_example =
    product_hosts_lem [] (tcp ∷ https ∷ []) some_ports (codes "a" ∷ codes "b" ∷ []) 1 0 1
      (codes "b") 80 https refl refl refl

compare_versions_lem_example :
    compare_versions (version_text (1 ∷ 9 ∷ [])) (version_text (1 ∷ 10 ∷ 2 ∷ []))
    ≡ compare_numbers (1 ∷ 9 ∷ []) (1 ∷ 10 ∷ 2 ∷ [])
compare_versions_lem_example =
    compare_versions_lem 1 1 (9 ∷ []) (10 ∷ 2 ∷ []) (omega arith, (omega arith, tt))
      (omega arith, (omega arith, (omega arith, tt)))
