-- ===== src/Engine/Responses.antt =====
-- pkg/web/types.go: the answers to trigger requests.
use netping.Common.{ℕ, ℤ, Str, Bool, List}

pub record SingleProbeItem (F64 : Type 0) : Type 0 where
  pub sequence : ℕ
  pub success : Bool
  pub rtt_ms : F64
  pub dns_time_ms : F64
  pub tcp_time_ms : F64
  pub tls_time_ms : F64
  pub ttfb_ms : F64
  pub http_status : ℤ
  pub diagnostics : Str
  pub error : Str
  pub error_code : Str
  pub timestamp : Str

pub record HopItem (F64 : Type 0) : Type 0 where
  pub hop : ℤ
  pub address : Str
  pub hostname : Str
  pub rtts_ms : List F64
  pub timeout : Bool

pub record TriggerResponse (F64 : Type 0) : Type 0 where
  pub success : Bool
  pub target : Str
  pub hostname : Str
  pub ip : Str
  pub port : ℕ
  pub protocol : Str
  pub rtt_ms : F64
  pub dns_time_ms : F64
  pub tcp_time_ms : F64
  pub tls_time_ms : F64
  pub ttfb_ms : F64
  pub http_status : ℤ
  pub cert_expiry : Str
  pub diagnostics : Str
  pub error : Str
  pub error_code : Str
  pub timestamp : Str
  pub total_sent : ℕ
  pub total_success : ℕ
  pub total_failed : ℕ
  pub packet_loss : F64
  pub avg_rtt_ms : F64
  pub min_rtt_ms : F64
  pub max_rtt_ms : F64
  pub probes : List (SingleProbeItem F64)
  pub hops : List (HopItem F64)
