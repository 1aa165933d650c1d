-- ===== src/Pingers.antt =====
-- The constructions of pingers in pkg/probers: a constructor for each function `New…` that
-- `BuildPinger` calls, with its options. What the functions keep of their options is in the children
-- Ports (port and timeout) and Dialing (TLS); what the pingers do on the wire is in Wire, for some.
pub mod Pointer
pub mod Wire
pub mod Service
pub mod Identity
pub mod Ports
pub mod Dialing
use Wire.{
  HttpOptions, UdpOptions, IcmpOptions, GrpcOptions, WsOptions, DnsQueryOptions, RedisOptions,
  SshOptions, TcpOptions, TlsOptions,
}
use Service.{
  DbOptions, MemcachedOptions, MailOptions, LdapOptions, O365Options, StorageOptions, QueueOptions,
  SmbOptions, RsyncOptions, FtpOptions,
}
use Identity.{KerberosOptions, SsoOptions, WinRmOptions, EntraOptions, KmsOptions}

pub data Construction : Type 0 where
  http_pinger : HttpOptions → Construction
  udp_pinger : UdpOptions → Construction
  icmp_pinger : IcmpOptions → Construction
  grpc_pinger : GrpcOptions → Construction
  ws_pinger : WsOptions → Construction
  dns_query_prober : DnsQueryOptions → Construction
  redis_pinger : RedisOptions → Construction
  ssh_pinger : SshOptions → Construction
  tcp_pinger : TcpOptions → Construction
  tls_pinger : TlsOptions → Construction
  db_pinger : DbOptions → Construction
  memcached_pinger : MemcachedOptions → Construction
  mail_pinger : MailOptions → Construction
  ldap_pinger : LdapOptions → Construction
  o365_pinger : O365Options → Construction
  storage_pinger : StorageOptions → Construction
  queue_pinger : QueueOptions → Construction
  smb_pinger : SmbOptions → Construction
  rsync_pinger : RsyncOptions → Construction
  ftp_pinger : FtpOptions → Construction
  kerberos_pinger : KerberosOptions → Construction
  sso_pinger : SsoOptions → Construction
  winrm_pinger : WinRmOptions → Construction
  entra_pinger : EntraOptions → Construction
  kms_pinger : KmsOptions → Construction
