-- ===== src/Factory/Shape.antt =====
-- What the pingers that `BuildPinger` of pkg/probers/factory.go returns are constructed with.
use netping.Common.{
  ◌&&◌, ◌||◌, not, codes, has_prefix, is_empty, ◌==◌, if◌then◌else◌, arith, refl, ◌≡◌, ℕ, Option,
  some, none, Duration, Addr, Bool, true, false, le_zero, if_cases, ap, ◌∙◌,
}
use netping.Consts.{
  tcp, udp, kms, vault, custom, oidc, saml, oauth2, sso, entra, Protocol, icmp, tls, grpc, grpcs,
  ws, wss, dns, dot, redis, rediss, mongodb, mongodbs, mongodbsrv, cassandra, cassandras, memcached,
  memcacheds, smtp, smtps, imap, imaps, pop3, pop3s, ldap, ldaps, kafka, kafkas, amqp, amqps,
  rabbitmq, ftp, ftps, winrm, winrms,
}
use netping.Pingers.{
  Construction, http_pinger, udp_pinger, icmp_pinger, grpc_pinger, ws_pinger, dns_query_prober,
  redis_pinger, ssh_pinger, tcp_pinger, tls_pinger, db_pinger, memcached_pinger, mail_pinger,
  ldap_pinger, o365_pinger, storage_pinger, queue_pinger, smb_pinger, rsync_pinger, ftp_pinger,
  kerberos_pinger, sso_pinger, winrm_pinger, entra_pinger, kms_pinger,
}
use netping.Pingers.Ports.{port_of, timeout_of}
use netping.Pingers.Dialing.{dials_tls}
use netping.Consts.Protocols.{get_default_port}
use netping.Factory.{dispatch, build_pinger, effective_timeout}
use netping.Factory.Options.{FactoryOptions}

-- the address that the options of the constructor have
unfoldable pub ip_of : Construction → Addr
ip_of (http_pinger c) = c.ip
ip_of (udp_pinger c) = c.ip
ip_of (icmp_pinger c) = c.ip
ip_of (grpc_pinger c) = c.ip
ip_of (ws_pinger c) = c.ip
ip_of (dns_query_prober c) = c.ip
ip_of (redis_pinger c) = c.ip
ip_of (ssh_pinger c) = c.ip
ip_of (tcp_pinger c) = c.ip
ip_of (tls_pinger c) = c.ip
ip_of (db_pinger c) = c.ip
ip_of (memcached_pinger c) = c.ip
ip_of (mail_pinger c) = c.ip
ip_of (ldap_pinger c) = c.ip
ip_of (o365_pinger c) = c.ip
ip_of (storage_pinger c) = c.ip
ip_of (queue_pinger c) = c.ip
ip_of (smb_pinger c) = c.ip
ip_of (rsync_pinger c) = c.ip
ip_of (ftp_pinger c) = c.ip
ip_of (kerberos_pinger c) = c.ip
ip_of (sso_pinger c) = c.ip
ip_of (winrm_pinger c) = c.ip
ip_of (entra_pinger c) = c.ip
ip_of (kms_pinger c) = c.ip

-- The port of a protocol when the options have none: that of GetDefaultPort, but the submission port
-- for SMTP with STARTTLS, and none for the pingers that keep the port as it is.
unfoldable pub standard_port : Protocol → Bool → ℕ
standard_port smtp start_tls = if start_tls then 587 else get_default_port smtp
standard_port tcp _ = 0
standard_port udp _ = 0
standard_port kms _ = 0
standard_port vault _ = 0
standard_port (custom s) _ = 0
standard_port p _ = get_default_port p

-- an ICMP pinger has no port
unfoldable pub port_for : Protocol → FactoryOptions → Option ℕ
unfolding standard_port
port_for icmp _ = none
port_for p o = some (if o.port == 0 then standard_port p o.start_tls else o.port)

dispatch-ip_of :
    (p : Protocol) (timeout : Duration) (o : FactoryOptions) → ip_of (dispatch p timeout o) ≡ o.ip
unfolding dispatch ip_of
dispatch-ip_of tls timeout o = refl
dispatch-ip_of _ timeout o = refl

or_zero : (n : ℕ) → n ≡ (if n == 0 then 0 else n)
or_zero n = ground arith

dispatch-port_of :
    (p : Protocol) (timeout : Duration) (o : FactoryOptions)
    → port_of (dispatch p timeout (record o { protocol = p })) ≡ port_for p o
unfolding dispatch port_of port_for get_default_port
dispatch-port_of tls timeout o = refl
dispatch-port_of tcp timeout o = ap some (or_zero o.port)
dispatch-port_of udp timeout o = ap some (or_zero o.port)
dispatch-port_of kms timeout o = ap some (or_zero o.port)
dispatch-port_of vault timeout o = ap some (or_zero o.port)
dispatch-port_of (custom s) timeout o = ap some (or_zero o.port)
dispatch-port_of _ timeout o = refl

dispatch-timeout_of :
    (p : Protocol) (timeout : Duration) (o : FactoryOptions)
    → le_zero timeout ≡ false
    → timeout_of (dispatch p timeout o) ≡ timeout
unfolding dispatch timeout_of
dispatch-timeout_of tls timeout o h = refl
dispatch-timeout_of oidc timeout o h = rw h refl
dispatch-timeout_of saml timeout o h = rw h refl
dispatch-timeout_of oauth2 timeout o h = rw h refl
dispatch-timeout_of sso timeout o h = rw h refl
dispatch-timeout_of winrm timeout o h = rw h refl
dispatch-timeout_of winrms timeout o h = rw h refl
dispatch-timeout_of entra timeout o h = rw h refl
dispatch-timeout_of kms timeout o h = rw h refl
dispatch-timeout_of vault timeout o h = rw h refl
dispatch-timeout_of _ timeout o h = refl

effective_timeout-positive : (timeout : Duration) → le_zero (effective_timeout timeout) ≡ false
effective_timeout-positive timeout =
    if_cases (λ t. le_zero t ≡ false) (le_zero timeout) (λ _. refl) (λ h. h)

-- For every protocol, the pinger is constructed with the address of the options and keeps their
-- port and timeout. A port 0 gives way to the port that GetDefaultPort has for the protocol, or to 587
-- for SMTP with STARTTLS, but stays 0 for TCP, UDP, KMS, Vault and unknown protocols; an ICMP pinger
-- has no port. A timeout that is not positive gives way to two seconds: the one kept is positive.
pub build_pinger-port_of :
    (o : FactoryOptions)
    → (ip_of (build_pinger o) ≡ o.ip)
      × (port_of (build_pinger o) ≡ port_for o.protocol o)
      × (timeout_of (build_pinger o) ≡ effective_timeout o.timeout)
      × (le_zero (timeout_of (build_pinger o)) ≡ false)
unfolding build_pinger
build_pinger-port_of o =
    let positive = effective_timeout-positive o.timeout in
    let e = dispatch-timeout_of o.protocol (effective_timeout o.timeout) o positive in
    (
      dispatch-ip_of o.protocol (effective_timeout o.timeout) o,
      dispatch-port_of o.protocol (effective_timeout o.timeout) o,
      e,
      ap le_zero e ∙ positive,
    )

-- the construction with the flag for TLS, for the kinds that have one; a mail pinger then does not
-- upgrade
unfoldable pub with_tls : Construction → Construction
with_tls (grpc_pinger c) = grpc_pinger (record c { use_tls = true })
with_tls (ws_pinger c) = ws_pinger (record c { use_tls = true })
with_tls (dns_query_prober c) = dns_query_prober (record c { is_dot = true })
with_tls (redis_pinger c) = redis_pinger (record c { use_tls = true })
with_tls (db_pinger c) = db_pinger (record c { use_tls = true })
with_tls (memcached_pinger c) = memcached_pinger (record c { use_tls = true })
with_tls (mail_pinger c) = mail_pinger (record c { use_tls = true; start_tls = false })
with_tls (ldap_pinger c) = ldap_pinger (record c { use_tls = true })
with_tls (queue_pinger c) = queue_pinger (record c { use_tls = true })
with_tls (ftp_pinger c) = ftp_pinger (record c { use_tls = true })
with_tls (winrm_pinger c) = winrm_pinger (record c { use_tls = true })
with_tls p = p

-- a plain protocol and the one that is the same over TLS
pub data Twin : Protocol → Protocol → Type 0 where
  grpc_grpcs : Twin grpc grpcs
  ws_wss : Twin ws wss
  dns_dot : Twin dns dot
  redis_rediss : Twin redis rediss
  mongodb_mongodbs : Twin mongodb mongodbs
  mongodb_mongodbsrv : Twin mongodb mongodbsrv
  cassandra_cassandras : Twin cassandra cassandras
  memcached_memcacheds : Twin memcached memcacheds
  smtp_smtps : Twin smtp smtps
  imap_imaps : Twin imap imaps
  pop3_pop3s : Twin pop3 pop3s
  ldap_ldaps : Twin ldap ldaps
  kafka_kafkas : Twin kafka kafkas
  amqp_amqps : Twin amqp amqps
  rabbitmq_amqps : Twin rabbitmq amqps
  ftp_ftps : Twin ftp ftps
  winrm_winrms : Twin winrm winrms

-- the text that buildTargetURL starts from has a scheme
abbrev pub has_scheme : FactoryOptions → Bool
has_scheme o =
    let raw = if is_empty o.uri then o.hostname else o.uri in
    has_prefix (codes "http://") raw || has_prefix (codes "https://") raw

abbrev is_grpc : Protocol → Bool
is_grpc grpc = true
is_grpc _ = false

by_flag : (a b flag : Bool) → (a || b) ≡ false → (if not a && not b then flag else b) ≡ flag
by_flag true b flag h = cc
by_flag false true flag h = cc
by_flag false false flag h = refl

-- For each protocol that has a twin over TLS, the pinger of the twin is constructed from the same
-- options as the pinger of the plain one, with the flag for TLS set (and that for STARTTLS of a mail
-- pinger unset); the twin dials over TLS, and the
-- plain one does not, unless it is gRPC with the port 443. The condition is that the URI of the
-- options, or their hostname where there is none, does not start with http:// or https://, which
-- decides for WinRM.
pub build_pinger-Twin :
    {p q : Protocol}
    → Twin p q
    → (o : FactoryOptions) → has_scheme o ≡ false
    → (build_pinger (record o { protocol = q })
        ≡ with_tls (build_pinger (record o { protocol = p })))
      × (dials_tls (build_pinger (record o { protocol = p })) ≡ some (is_grpc p && o.port == 443))
      × (dials_tls (build_pinger (record o { protocol = q })) ≡ some true)
unfolding build_pinger dispatch dials_tls with_tls
build_pinger-Twin grpc_grpcs o h = (refl, refl, refl)
build_pinger-Twin winrm_winrms o h =
    let raw = if is_empty o.uri then o.hostname else o.uri in
    let http = has_prefix (codes "http://") raw in
    let https = has_prefix (codes "https://") raw in
    (refl, ap some (by_flag http https false h), ap some (by_flag http https true h))
build_pinger-Twin _ o h = (refl, refl, refl)
