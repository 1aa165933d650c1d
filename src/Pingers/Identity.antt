-- ===== src/Pingers/Identity.antt =====
-- The options of the pingers in pkg/probers/{kerberos,sso,winrm,entra,kms}.go.
use netping.Common.{ℕ, Str, Bool, Duration, Addr}
use netping.Pingers.Pointer.{Pointer}

pub data SsoType : Type 0 where
  sso_type_oidc sso_type_saml sso_type_oauth2 sso_type_auto : SsoType

pub data KmsType : Type 0 where
  kms_type_auto kms_type_hashicorp kms_type_azure kms_type_cyberark kms_type_aws kms_type_gcp :
      KmsType

pub record KerberosOptions : Type 0 where
  pub hostname : Str
  pub ip : Addr
  pub port : ℕ
  pub is_udp : Bool
  pub realm : Str
  pub timeout : Duration
  pub dialer : Pointer

pub record SsoOptions : Type 0 where
  pub kind : SsoType
  pub hostname : Str
  pub ip : Addr
  pub port : ℕ
  pub uri : Str
  pub timeout : Duration
  pub tls_config : Pointer
  pub dialer : Pointer
  pub use_ipv4 : Bool
  pub use_ipv6 : Bool

pub record WinRmOptions : Type 0 where
  pub hostname : Str
  pub ip : Addr
  pub port : ℕ
  pub use_tls : Bool
  pub uri : Str
  pub timeout : Duration
  pub tls_config : Pointer
  pub dialer : Pointer
  pub use_ipv4 : Bool
  pub use_ipv6 : Bool

pub record EntraOptions : Type 0 where
  pub hostname : Str
  pub tenant_id : Str
  pub ip : Addr
  pub port : ℕ
  pub uri : Str
  pub timeout : Duration
  pub tls_config : Pointer
  pub dialer : Pointer
  pub use_ipv4 : Bool
  pub use_ipv6 : Bool

pub record KmsOptions : Type 0 where
  pub kind : KmsType
  pub hostname : Str
  pub ip : Addr
  pub port : ℕ
  pub uri : Str
  pub timeout : Duration
  pub tls_config : Pointer
  pub dialer : Pointer
  pub use_ipv4 : Bool
  pub use_ipv6 : Bool
