-- ===== src/Factory/Options.antt =====
-- `FactoryOptions` of pkg/probers/factory.go.
use netping.Common.{ℕ, Str, Bool, List, Duration, Addr}
use netping.Consts.{Protocol}
use netping.Pingers.Pointer.{Pointer}

pub record FactoryOptions : Type 0 where
  pub protocol : Protocol
  pub hostname : Str
  pub ip : Addr
  pub port : ℕ
  pub timeout : Duration
  pub dialer : Pointer
  pub use_ipv4 : Bool
  pub use_ipv6 : Bool
  pub send_data : Str
  pub expect_data : Str
  pub service_name : Str
  pub dns_hosts : List Str
  pub start_tls : Bool
  pub fast_close : Bool
  pub uri : Str
  pub tls_config : Pointer
  pub http_method : Str
  pub user_agent : Str
  pub waf_mode : Bool
