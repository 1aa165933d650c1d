-- ===== src/Examples/Names.antt =====
-- The theorems on protocol names, on the choice of addresses and on the construction of pingers at concrete inputs.
use netping.Dns.{resolved, unresolved, lookup_failed}
use netping.Dns.Changes.{IsLogged, re_resolved, re_resolved-IsLogged}
use netping.Stats.{new_statistics}
use netping.Examples.{naturals, target}
use netping.Common.{
  has_prefix, trim_space, to_lower, ◌≡◌, refl, codes, true, false, some, none, [], pos, negsuc,
  second, ◌*◌, ipv4, le_zero,
}
use netping.Common.{ipv6, ltb, if◌then◌else◌, ◌∷◌, arith}
use netping.Dns.{choose}
use netping.Dns.Choice.{IsChoice, choose-IsChoice}
use netping.Consts.{protocol_str, smtps, smtp, icmp, kafkas, grpc}
use netping.Consts.Protocols.{normalize_protocol, get_default_port}
use netping.Consts.Protocols.Normal.{
  normalize_protocol-protocol_str, normalize_protocol_again, normalize_protocol_fold,
}
use netping.Pingers.Ports.{port_of, timeout_of}
use netping.Pingers.Dialing.{dials_tls}
use netping.Factory.{build_pinger}
use netping.Factory.Options.{FactoryOptions}
use netping.Factory.Shape.{
  ip_of, port_for, with_tls, build_pinger-port_of, build_pinger-Twin, smtp_smtps,
}

normalize_protocol-protocol_str_example :
    normalize_protocol (protocol_str kafkas) ≡ (kafkas, get_default_port kafkas, true)
normalize_protocol-protocol_str_example = normalize_protocol-protocol_str kafkas refl

normalize_protocol_again_example :
    normalize_protocol (protocol_str (normalize_protocol (codes " Amqp ")).0)
    ≡ normalize_protocol (codes " Amqp ")
unfolding normalize_protocol
normalize_protocol_again_example = normalize_protocol_again (codes " Amqp ") refl

normalize_protocol_fold_example :
    normalize_protocol (codes " Kafka+TLS") ≡ normalize_protocol (codes "kafka+tls ")
unfolding trim_space to_lower
normalize_protocol_fold_example =
    normalize_protocol_fold (codes " Kafka+TLS") (codes "kafka+tls ") refl

abbrev options : FactoryOptions
options = record {
  protocol = icmp;
  hostname = codes "mail.example.org";
  ip = ipv4 16909060;
  port = 25;
  timeout = negsuc 0;
  dialer = some 1;
  use_ipv4 = false;
  use_ipv6 = false;
  send_data = [];
  expect_data = [];
  service_name = [];
  dns_hosts = [];
  start_tls = true;
  fast_close = false;
  uri = [];
  tls_config = some 1;
  http_method = [];
  user_agent = [];
  waf_mode = false;
}

-- mail with STARTTLS, and no port
abbrev submission : FactoryOptions
submission = record options { protocol = smtp; port = 0 }

build_pinger-port_of_example :
    (ip_of (build_pinger submission) ≡ ipv4 16909060)
    × (port_of (build_pinger submission) ≡ some 587)
    × (timeout_of (build_pinger submission) ≡ pos (2 * second))
    × (le_zero (timeout_of (build_pinger submission)) ≡ false)
unfolding port_for
build_pinger-port_of_example = build_pinger-port_of submission

build_pinger-Twin_example :
    (build_pinger (record options { protocol = smtps })
      ≡ with_tls (build_pinger (record options { protocol = smtp })))
    × (dials_tls (build_pinger (record options { protocol = smtp })) ≡ some false)
    × (dials_tls (build_pinger (record options { protocol = smtps })) ≡ some true)
unfolding has_prefix
build_pinger-Twin_example = build_pinger-Twin smtp_smtps options refl

-- a pinger for gRPC without TLS speaks https to the port 443
grpc_on_443 : dials_tls (build_pinger (record options { protocol = grpc; port = 443 })) ≡ some true
unfolding dials_tls build_pinger
grpc_on_443 = refl

choose-IsChoice_example :
    IsChoice
      (record { use_ipv4 = false; use_ipv6 = false })
      (ipv6 42540766411282592856903984951653826561 [] ∷ ipv4 16909060 ∷ [])
      (choose
        (record { use_ipv4 = false; use_ipv6 = false })
        true
        (λ n. if ltb 0 n then some 0 else none)
        (codes "example.org")
        (ipv6 42540766411282592856903984951653826561 [] ∷ ipv4 16909060 ∷ []))
choose-IsChoice_example =
    choose-IsChoice (record { use_ipv4 = false; use_ipv6 = false })
      (ipv6 42540766411282592856903984951653826561 [] ∷ ipv4 16909060 ∷ [])
      (λ n. if ltb 0 n then some 0 else none) (λ n k e. ground arith) true (codes "example.org")

re_resolved-IsLogged_example :
    let s =
      re_resolved
        (new_statistics naturals 5 target)
        ((resolved (ipv4 7), 30) ∷ (unresolved lookup_failed, 20) ∷ (resolved (ipv4 7), 10) ∷ []) in
    IsLogged s.ip s.hostname_changes
re_resolved-IsLogged_example =
    re_resolved-IsLogged naturals 5 target
      ((resolved (ipv4 7), 30) ∷ (unresolved lookup_failed, 20) ∷ (resolved (ipv4 7), 10) ∷ [])
