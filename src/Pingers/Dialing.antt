-- ===== src/Pingers/Dialing.antt =====
-- Whether a pinger of pkg/probers/*.go dials over TLS, for the kinds of pinger with a flag for it.
use netping.Common.{
  ◌==◌, ◌&&◌, ◌||◌, not, codes, has_prefix, is_empty, Bool, true, false, Option, none, some,
  if◌then◌else◌,
}
use netping.Pingers.{
  Construction, grpc_pinger, ws_pinger, dns_query_prober, redis_pinger, db_pinger, memcached_pinger,
  mail_pinger, ldap_pinger, queue_pinger, ftp_pinger, winrm_pinger,
}
use netping.Pingers.Wire.{GrpcOptions, DnsQueryOptions}
use netping.Pingers.Service.{DbOptions, DbType, postgresql_db, mysql_db}
use netping.Pingers.Identity.{WinRmOptions}

-- the scheme of the URL in NewGRPCing: https also for the port 443
abbrev grpc_is_https : GrpcOptions → Bool
grpc_is_https c = c.use_tls || c.port == 443

-- DoH is https, and DoT dials over TLS
abbrev dns_query_is_tls : DnsQueryOptions → Bool
dns_query_is_tls c = c.is_doh || c.is_dot

-- PostgreSQL and MySQL negotiate TLS in band
abbrev is_in_band : DbType → Bool
is_in_band postgresql_db = true
is_in_band mysql_db = true
is_in_band _ = false

abbrev db_is_tls : DbOptions → Bool
db_is_tls c = c.use_tls && not (is_in_band c.kind)

-- the scheme of the URL in buildTargetURL; where the URI and the hostname are empty, the text of an
-- address follows, which has no scheme
abbrev winrm_is_https : WinRmOptions → Bool
winrm_is_https c =
    let raw = if is_empty c.uri then c.hostname else c.uri in
    if not (has_prefix (codes "http://") raw) && not (has_prefix (codes "https://") raw)
    then c.use_tls
    else has_prefix (codes "https://") raw

-- whether the pinger dials over TLS (a mail pinger that upgrades by STARTTLS does not); `none` for
-- the kinds of pinger without a flag for it
unfoldable pub dials_tls : Construction → Option Bool
dials_tls (grpc_pinger c) = some (grpc_is_https c)
dials_tls (ws_pinger c) = some c.use_tls
dials_tls (dns_query_prober c) = some (dns_query_is_tls c)
dials_tls (redis_pinger c) = some c.use_tls
dials_tls (db_pinger c) = some (db_is_tls c)
dials_tls (memcached_pinger c) = some c.use_tls
dials_tls (mail_pinger c) = some c.use_tls
dials_tls (ldap_pinger c) = some c.use_tls
dials_tls (queue_pinger c) = some c.use_tls
dials_tls (ftp_pinger c) = some c.use_tls
dials_tls (winrm_pinger c) = some (winrm_is_https c)
dials_tls _ = none
