-- ===== src/Factory/Wire.antt =====
-- The cases of `BuildPinger` in pkg/probers/factory.go, one function for each kind of pinger: the
-- cases of one kind differ in what the function takes first. The protocols of the web, of name service and of plain sockets.
use netping.Common.{Bool, false, [], Duration}
use netping.Factory.Options.{FactoryOptions}
use netping.Pingers.{
  Construction, http_pinger, udp_pinger, icmp_pinger, grpc_pinger, ws_pinger, dns_query_prober,
  redis_pinger, ssh_pinger, tcp_pinger, tls_pinger,
}

unfoldable pub build_http : Duration → FactoryOptions → Construction
build_http timeout o = http_pinger (record {
  hostname = o.hostname;
  ip = o.ip;
  port = o.port;
  protocol = o.protocol;
  timeout = timeout;
  dialer = o.dialer;
  send_data = o.send_data;
  expect_data = o.expect_data;
  method = o.http_method;
  user_agent = o.user_agent;
  waf_mode = o.waf_mode;
})

unfoldable pub build_udp : Duration → FactoryOptions → Construction
build_udp timeout o = udp_pinger (record {
  ip = o.ip;
  port = o.port;
  timeout = timeout;
  dialer = o.dialer;
  send_data = o.send_data;
  expect_data = o.expect_data;
})

unfoldable pub build_icmp : Duration → FactoryOptions → Construction
build_icmp timeout o = icmp_pinger (record { ip = o.ip; timeout = timeout; use_ipv6 = o.use_ipv6 })

unfoldable pub build_grpc : Bool → Duration → FactoryOptions → Construction
build_grpc use_tls timeout o = grpc_pinger (record {
  hostname = o.hostname;
  ip = o.ip;
  port = o.port;
  use_tls = use_tls;
  timeout = timeout;
  dialer = o.dialer;
})

unfoldable pub build_ws : Bool → Duration → FactoryOptions → Construction
build_ws use_tls timeout o = ws_pinger (record {
  hostname = o.hostname;
  ip = o.ip;
  port = o.port;
  use_tls = use_tls;
  timeout = timeout;
  dialer = o.dialer;
})

unfoldable pub build_dns_query : Bool → Bool → Duration → FactoryOptions → Construction
build_dns_query is_doh is_dot timeout o = dns_query_prober (record {
  nameserver = o.hostname;
  ip = o.ip;
  port = o.port;
  domains = o.dns_hosts;
  domain = o.hostname;
  is_doh = is_doh;
  is_dot = is_dot;
  timeout = timeout;
  dialer = o.dialer;
})

unfoldable pub build_redis : Bool → Duration → FactoryOptions → Construction
build_redis use_tls timeout o = redis_pinger (record {
  hostname = o.hostname;
  ip = o.ip;
  port = o.port;
  use_tls = use_tls;
  password = [];
  timeout = timeout;
  dialer = o.dialer;
})

unfoldable pub build_ssh : Duration → FactoryOptions → Construction
build_ssh timeout o = ssh_pinger (record {
  hostname = o.hostname;
  ip = o.ip;
  port = o.port;
  timeout = timeout;
  dialer = o.dialer;
})

unfoldable pub build_tls : Duration → FactoryOptions → Construction
build_tls timeout o = tls_pinger (record {
  hostname = o.hostname;
  ip = o.ip;
  port = o.port;
  timeout = timeout;
  dialer = o.dialer;
  fast_close = o.fast_close;
  skip_verify = false;
})

unfoldable pub build_tcp : Duration → FactoryOptions → Construction
build_tcp timeout o = tcp_pinger (record {
  hostname = o.hostname;
  ip = o.ip;
  port = o.port;
  timeout = timeout;
  dialer = o.dialer;
  send_data = o.send_data;
  expect_data = o.expect_data;
  fast_close = o.fast_close;
})
