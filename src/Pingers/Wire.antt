-- ===== src/Pingers/Wire.antt =====
-- The options of the pingers in pkg/probers/{http,udp,icmp,grpc,ws,dns_query,redis,ssh,tcp,raw_tls}.go.
use netping.Common.{ℕ, Str, Bool, List, Duration, Addr}
use netping.Consts.{Protocol}
use netping.Pingers.Pointer.{Pointer}

pub record HttpOptions : Type 0 where
  pub hostname : Str
  pub ip : Addr
  pub port : ℕ
  pub protocol : Protocol
  pub timeout : Duration
  pub dialer : Pointer
  pub send_data : Str
  pub expect_data : Str
  pub method : Str
  pub user_agent : Str
  pub waf_mode : Bool

pub record UdpOptions : Type 0 where
  pub ip : Addr
  pub port : ℕ
  pub timeout : Duration
  pub dialer : Pointer
  pub send_data : Str
  pub expect_data : Str

pub record IcmpOptions : Type 0 where
  pub ip : Addr
  pub timeout : Duration
  pub use_ipv6 : Bool

pub record GrpcOptions : Type 0 where
  pub hostname : Str
  pub ip : Addr
  pub port : ℕ
  pub use_tls : Bool
  pub timeout : Duration
  pub dialer : Pointer

pub record WsOptions : Type 0 where
  pub hostname : Str
  pub ip : Addr
  pub port : ℕ
  pub use_tls : Bool
  pub timeout : Duration
  pub dialer : Pointer

pub record DnsQueryOptions : Type 0 where
  pub nameserver : Str
  pub ip : Addr
  pub port : ℕ
  pub domains : List Str
  pub domain : Str
  pub is_doh : Bool
  pub is_dot : Bool
  pub timeout : Duration
  pub dialer : Pointer

pub record RedisOptions : Type 0 where
  pub hostname : Str
  pub ip : Addr
  pub port : ℕ
  pub use_tls : Bool
  pub password : Str
  pub timeout : Duration
  pub dialer : Pointer

pub record SshOptions : Type 0 where
  pub hostname : Str
  pub ip : Addr
  pub port : ℕ
  pub timeout : Duration
  pub dialer : Pointer

pub record TcpOptions : Type 0 where
  pub hostname : Str
  pub ip : Addr
  pub port : ℕ
  pub timeout : Duration
  pub dialer : Pointer
  pub send_data : Str
  pub expect_data : Str
  pub fast_close : Bool

pub record TlsOptions : Type 0 where
  pub hostname : Str
  pub ip : Addr
  pub port : ℕ
  pub timeout : Duration
  pub dialer : Pointer
  pub fast_close : Bool
  pub skip_verify : Bool
