-- ===== src/Pingers/Ports.antt =====
-- The ports and the timeouts that the functions `New…` of pkg/probers/*.go keep.
use netping.Common.{
  ℕ, ◌*◌, ◌==◌, Bool, true, false, Option, none, some, Duration, pos, second, le_zero,
  if◌then◌else◌,
}
use netping.Consts.{Protocol, https}
use netping.Pingers.{
  Construction, http_pinger, udp_pinger, icmp_pinger, grpc_pinger, ws_pinger, dns_query_prober,
  redis_pinger, ssh_pinger, tcp_pinger, tls_pinger, db_pinger, memcached_pinger, mail_pinger,
  ldap_pinger, o365_pinger, storage_pinger, queue_pinger, smb_pinger, rsync_pinger, ftp_pinger,
  kerberos_pinger, sso_pinger, winrm_pinger, entra_pinger, kms_pinger,
}
use netping.Pingers.Wire.{
  HttpOptions, GrpcOptions, WsOptions, DnsQueryOptions, RedisOptions, SshOptions, TlsOptions,
}
use netping.Pingers.Service.{
  DbOptions, MemcachedOptions, MailOptions, LdapOptions, O365Options, StorageOptions, QueueOptions,
  SmbOptions, RsyncOptions, FtpOptions, DbType, MailProtocol, QueueProtocol, postgresql_db,
  mysql_db, mssql_db, oracle_db, mongo_db, cassandra_db, saphana_db, mail_smtp, mail_imap,
  mail_pop3, queue_kafka, queue_rabbitmq,
}
use netping.Pingers.Identity.{KerberosOptions, SsoOptions, WinRmOptions, EntraOptions}

-- a port that gives way to another when it is 0
abbrev or_port : ℕ → ℕ → ℕ
or_port standard port = if port == 0 then standard else port

abbrev pub is_https : Protocol → Bool
is_https https = true
is_https _ = false

abbrev http_port : HttpOptions → ℕ
http_port c = or_port (if is_https c.protocol then 443 else 80) c.port

-- the port in the URL
abbrev grpc_port : GrpcOptions → ℕ
grpc_port c = or_port (if c.use_tls then 443 else 50051) c.port

abbrev ws_port : WsOptions → ℕ
ws_port c = or_port (if c.use_tls then 443 else 80) c.port

abbrev dns_query_port : DnsQueryOptions → ℕ
dns_query_port c = or_port (if c.is_doh then 443 else if c.is_dot then 853 else 53) c.port

abbrev redis_port : RedisOptions → ℕ
redis_port c = or_port (if c.use_tls then 6380 else 6379) c.port

abbrev ssh_port : SshOptions → ℕ
ssh_port c = or_port 22 c.port

abbrev tls_port : TlsOptions → ℕ
tls_port c = or_port 443 c.port

-- defaultDBPort
unfoldable pub default_db_port : DbType → Bool → ℕ
default_db_port mysql_db use_tls = 3306
default_db_port mssql_db use_tls = 1433
default_db_port oracle_db use_tls = if use_tls then 2484 else 1521
default_db_port mongo_db use_tls = 27017
default_db_port cassandra_db use_tls = 9042
default_db_port saphana_db use_tls = 30015
default_db_port postgresql_db use_tls = 5432

unfoldable db_port : DbOptions → ℕ
unfolding default_db_port
db_port c = or_port (default_db_port c.kind c.use_tls) c.port

abbrev memcached_port : MemcachedOptions → ℕ
memcached_port c = or_port 11211 c.port

-- the switch of NewMailing
unfoldable pub default_mail_port : MailProtocol → Bool → Bool → ℕ
default_mail_port mail_imap use_tls start_tls = if use_tls then 993 else 143
default_mail_port mail_pop3 use_tls start_tls = if use_tls then 995 else 110
default_mail_port mail_smtp use_tls start_tls =
    if use_tls then 465 else if start_tls then 587 else 25

unfoldable mail_port : MailOptions → ℕ
unfolding default_mail_port
mail_port c = or_port (default_mail_port c.protocol c.use_tls c.start_tls) c.port

abbrev ldap_port : LdapOptions → ℕ
ldap_port c = or_port (if c.use_tls then 636 else 389) c.port

abbrev o365_port : O365Options → ℕ
o365_port c = or_port 443 c.port

abbrev storage_port : StorageOptions → ℕ
storage_port c = or_port 443 c.port

unfoldable pub default_queue_port : QueueProtocol → Bool → ℕ
default_queue_port queue_kafka use_tls = if use_tls then 9093 else 9092
default_queue_port queue_rabbitmq use_tls = if use_tls then 5671 else 5672

unfoldable queue_port : QueueOptions → ℕ
unfolding default_queue_port
queue_port c = or_port (default_queue_port c.protocol c.use_tls) c.port

abbrev smb_port : SmbOptions → ℕ
smb_port c = or_port 445 c.port

abbrev rsync_port : RsyncOptions → ℕ
rsync_port c = or_port 873 c.port

abbrev ftp_port : FtpOptions → ℕ
ftp_port c = or_port (if c.use_tls then 990 else 21) c.port

abbrev kerberos_port : KerberosOptions → ℕ
kerberos_port c = or_port 88 c.port

abbrev sso_port : SsoOptions → ℕ
sso_port c = or_port 443 c.port

abbrev winrm_port : WinRmOptions → ℕ
winrm_port c = or_port (if c.use_tls then 5986 else 5985) c.port

abbrev entra_port : EntraOptions → ℕ
entra_port c = or_port 443 c.port

-- the port that the function keeps of its options, or fills in; a pinger for ICMP has none
unfoldable pub port_of : Construction → Option ℕ
unfolding db_port mail_port queue_port
port_of (http_pinger c) = some (http_port c)
port_of (udp_pinger c) = some c.port
port_of (icmp_pinger c) = none
port_of (grpc_pinger c) = some (grpc_port c)
port_of (ws_pinger c) = some (ws_port c)
port_of (dns_query_prober c) = some (dns_query_port c)
port_of (redis_pinger c) = some (redis_port c)
port_of (ssh_pinger c) = some (ssh_port c)
port_of (tcp_pinger c) = some c.port
port_of (tls_pinger c) = some (tls_port c)
port_of (db_pinger c) = some (db_port c)
port_of (memcached_pinger c) = some (memcached_port c)
port_of (mail_pinger c) = some (mail_port c)
port_of (ldap_pinger c) = some (ldap_port c)
port_of (o365_pinger c) = some (o365_port c)
port_of (storage_pinger c) = some (storage_port c)
port_of (queue_pinger c) = some (queue_port c)
port_of (smb_pinger c) = some (smb_port c)
port_of (rsync_pinger c) = some (rsync_port c)
port_of (ftp_pinger c) = some (ftp_port c)
port_of (kerberos_pinger c) = some (kerberos_port c)
port_of (sso_pinger c) = some (sso_port c)
port_of (winrm_pinger c) = some (winrm_port c)
port_of (entra_pinger c) = some (entra_port c)
port_of (kms_pinger c) = some c.port

-- a timeout that is not positive gives way to five seconds, in some of the functions
abbrev or_five_seconds : Duration → Duration
or_five_seconds timeout = if le_zero timeout then pos (5 * second) else timeout

-- the timeout that the function keeps
unfoldable pub timeout_of : Construction → Duration
timeout_of (http_pinger c) = c.timeout
timeout_of (udp_pinger c) = c.timeout
timeout_of (icmp_pinger c) = c.timeout
timeout_of (grpc_pinger c) = c.timeout
timeout_of (ws_pinger c) = c.timeout
timeout_of (dns_query_prober c) = c.timeout
timeout_of (redis_pinger c) = c.timeout
timeout_of (ssh_pinger c) = c.timeout
timeout_of (tcp_pinger c) = c.timeout
timeout_of (tls_pinger c) = c.timeout
timeout_of (db_pinger c) = c.timeout
timeout_of (memcached_pinger c) = c.timeout
timeout_of (mail_pinger c) = c.timeout
timeout_of (ldap_pinger c) = c.timeout
timeout_of (o365_pinger c) = c.timeout
timeout_of (storage_pinger c) = c.timeout
timeout_of (queue_pinger c) = c.timeout
timeout_of (smb_pinger c) = c.timeout
timeout_of (rsync_pinger c) = c.timeout
timeout_of (ftp_pinger c) = c.timeout
timeout_of (kerberos_pinger c) = c.timeout
timeout_of (sso_pinger c) = or_five_seconds c.timeout
timeout_of (winrm_pinger c) = or_five_seconds c.timeout
timeout_of (entra_pinger c) = or_five_seconds c.timeout
timeout_of (kms_pinger c) = or_five_seconds c.timeout
