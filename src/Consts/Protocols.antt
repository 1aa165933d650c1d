-- ===== src/Consts/Protocols.antt =====
-- pkg/consts/protocols.go: default ports, aliases, and the normalisation of user input.
pub mod Normal
use netping.Common.{
  ℕ, Str, codes, str_eq, trim_space, to_lower, Bool, true, false, Option, none, some, List, [], ◌∷◌,
  if◌then◌else◌,
}
use netping.Consts.{
  Protocol, tcp, tls, udp, http, https, icmp, grpc, grpcs, ws, wss, dns, dot, doh, redis, rediss,
  ssh, postgres, mysql, mssql, oracle, mongodb, mongodbs, mongodbsrv, cassandra, cassandras,
  saphana, memcached, memcacheds, smtp, smtps, imap, imaps, pop3, pop3s, ldap, ldaps, o365, s3,
  azureblob, gcs, kafka, kafkas, rabbitmq, amqp, amqps, smb, rsync, ftp, ftps, kerberos,
  kerberosudp, oidc, saml, oauth2, sso, winrm, winrms, entra, kms, vault, custom,
}

-- protocolDefaultPorts: a lookup in the map; a protocol that is no constant has no entry
unfoldable pub protocol_default_ports : Protocol → Option ℕ
protocol_default_ports tcp = some 443
protocol_default_ports tls = some 443
protocol_default_ports udp = some 53
protocol_default_ports http = some 80
protocol_default_ports https = some 443
protocol_default_ports icmp = some 0
protocol_default_ports grpc = some 50051
protocol_default_ports grpcs = some 443
protocol_default_ports ws = some 80
protocol_default_ports wss = some 443
protocol_default_ports dns = some 53
protocol_default_ports dot = some 853
protocol_default_ports doh = some 443
protocol_default_ports redis = some 6379
protocol_default_ports rediss = some 6380
protocol_default_ports ssh = some 22
protocol_default_ports postgres = some 5432
protocol_default_ports mysql = some 3306
protocol_default_ports mssql = some 1433
protocol_default_ports oracle = some 1521
protocol_default_ports mongodb = some 27017
protocol_default_ports mongodbs = some 27017
protocol_default_ports mongodbsrv = some 27017
protocol_default_ports cassandra = some 9042
protocol_default_ports cassandras = some 9042
protocol_default_ports saphana = some 30015
protocol_default_ports memcached = some 11211
protocol_default_ports memcacheds = some 11211
protocol_default_ports smtp = some 25
protocol_default_ports smtps = some 465
protocol_default_ports imap = some 143
protocol_default_ports imaps = some 993
protocol_default_ports pop3 = some 110
protocol_default_ports pop3s = some 995
protocol_default_ports ldap = some 389
protocol_default_ports ldaps = some 636
protocol_default_ports o365 = some 443
protocol_default_ports s3 = some 443
protocol_default_ports azureblob = some 443
protocol_default_ports gcs = some 443
protocol_default_ports kafka = some 9092
protocol_default_ports kafkas = some 9093
protocol_default_ports rabbitmq = some 5672
protocol_default_ports amqp = some 5672
protocol_default_ports amqps = some 5671
protocol_default_ports smb = some 445
protocol_default_ports rsync = some 873
protocol_default_ports ftp = some 21
protocol_default_ports ftps = some 990
protocol_default_ports kerberos = some 88
protocol_default_ports kerberosudp = some 88
protocol_default_ports oidc = some 443
protocol_default_ports saml = some 443
protocol_default_ports oauth2 = some 443
protocol_default_ports sso = some 443
protocol_default_ports winrm = some 5985
protocol_default_ports winrms = some 5986
protocol_default_ports entra = some 443
protocol_default_ports kms = some 443
protocol_default_ports vault = some 8200
protocol_default_ports (custom s) = none

-- protocolAliases, as the list of its entries
pub protocol_aliases : List (Str × Protocol)
protocol_aliases =
    (codes "tcp", tcp)
    ∷ (codes "tls", tls)
    ∷ (codes "tcps", tls)
    ∷ (codes "ssl", tls)
    ∷ (codes "udp", udp)
    ∷ (codes "http", http)
    ∷ (codes "https", https)
    ∷ (codes "icmp", icmp)
    ∷ (codes "ping", icmp)
    ∷ (codes "grpc", grpc)
    ∷ (codes "grpcs", grpcs)
    ∷ (codes "ws", ws)
    ∷ (codes "wss", wss)
    ∷ (codes "websocket", ws)
    ∷ (codes "websockets", wss)
    ∷ (codes "dns", dns)
    ∷ (codes "dot", dot)
    ∷ (codes "doh", doh)
    ∷ (codes "redis", redis)
    ∷ (codes "rediss", rediss)
    ∷ (codes "ssh", ssh)
    ∷ (codes "sftp", ssh)
    ∷ (codes "postgres", postgres)
    ∷ (codes "postgresql", postgres)
    ∷ (codes "psql", postgres)
    ∷ (codes "mysql", mysql)
    ∷ (codes "mariadb", mysql)
    ∷ (codes "mssql", mssql)
    ∷ (codes "sqlserver", mssql)
    ∷ (codes "oracle", oracle)
    ∷ (codes "tns", oracle)
    ∷ (codes "mongodb", mongodb)
    ∷ (codes "mongo", mongodb)
    ∷ (codes "mongodbs", mongodbs)
    ∷ (codes "mongodb+ssl", mongodbs)
    ∷ (codes "mongo+ssl", mongodbs)
    ∷ (codes "mongodb+srv", mongodbsrv)
    ∷ (codes "mongo+srv", mongodbsrv)
    ∷ (codes "mongosrv", mongodbsrv)
    ∷ (codes "mongodb-srv", mongodbsrv)
    ∷ (codes "atlas", mongodbsrv)
    ∷ (codes "cassandra", cassandra)
    ∷ (codes "cassandras", cassandras)
    ∷ (codes "scylla", cassandra)
    ∷ (codes "cql", cassandra)
    ∷ (codes "cqls", cassandras)
    ∷ (codes "saphana", saphana)
    ∷ (codes "hana", saphana)
    ∷ (codes "memcached", memcached)
    ∷ (codes "memcache", memcached)
    ∷ (codes "memcacheds", memcacheds)
    ∷ (codes "memcaches", memcacheds)
    ∷ (codes "smtp", smtp)
    ∷ (codes "smtps", smtps)
    ∷ (codes "imap", imap)
    ∷ (codes "imaps", imaps)
    ∷ (codes "pop3", pop3)
    ∷ (codes "pop3s", pop3s)
    ∷ (codes "ldap", ldap)
    ∷ (codes "ldaps", ldaps)
    ∷ (codes "o365", o365)
    ∷ (codes "m365", o365)
    ∷ (codes "office365", o365)
    ∷ (codes "o365mbx", o365)
    ∷ (codes "graph", o365)
    ∷ (codes "s3", s3)
    ∷ (codes "awss3", s3)
    ∷ (codes "azureblob", azureblob)
    ∷ (codes "blob", azureblob)
    ∷ (codes "adls", azureblob)
    ∷ (codes "gcs", gcs)
    ∷ (codes "gcpbucket", gcs)
    ∷ (codes "gcpstorage", gcs)
    ∷ (codes "kafka", kafka)
    ∷ (codes "kafkas", kafkas)
    ∷ (codes "rabbitmq", rabbitmq)
    ∷ (codes "amqp", rabbitmq)
    ∷ (codes "amqps", amqps)
    ∷ (codes "smb", smb)
    ∷ (codes "cifs", smb)
    ∷ (codes "rsync", rsync)
    ∷ (codes "ftp", ftp)
    ∷ (codes "ftps", ftps)
    ∷ (codes "kerberos", kerberos)
    ∷ (codes "krb5", kerberos)
    ∷ (codes "krb", kerberos)
    ∷ (codes "kdc", kerberos)
    ∷ (codes "kerberos-tcp", kerberos)
    ∷ (codes "krb5-tcp", kerberos)
    ∷ (codes "krb-tcp", kerberos)
    ∷ (codes "kdc-tcp", kerberos)
    ∷ (codes "kerberos-udp", kerberosudp)
    ∷ (codes "krb5-udp", kerberosudp)
    ∷ (codes "krb-udp", kerberosudp)
    ∷ (codes "kdc-udp", kerberosudp)
    ∷ (codes "kerberosudp", kerberosudp)
    ∷ (codes "oidc", oidc)
    ∷ (codes "openid", oidc)
    ∷ (codes "openid-connect", oidc)
    ∷ (codes "oidc-discovery", oidc)
    ∷ (codes "saml", saml)
    ∷ (codes "saml2", saml)
    ∷ (codes "saml-idp", saml)
    ∷ (codes "saml-sp", saml)
    ∷ (codes "saml-metadata", saml)
    ∷ (codes "oauth2", oauth2)
    ∷ (codes "oauth", oauth2)
    ∷ (codes "oauth2-as", oauth2)
    ∷ (codes "oauth-metadata", oauth2)
    ∷ (codes "sso", sso)
    ∷ (codes "single-sign-on", sso)
    ∷ (codes "federation", sso)
    ∷ (codes "winrm", winrm)
    ∷ (codes "wsman", winrm)
    ∷ (codes "ws-man", winrm)
    ∷ (codes "winrms", winrms)
    ∷ (codes "wsman-ssl", winrms)
    ∷ (codes "ws-mans", winrms)
    ∷ (codes "wsman-tls", winrms)
    ∷ (codes "entra", entra)
    ∷ (codes "azureentra", entra)
    ∷ (codes "entraid", entra)
    ∷ (codes "azure-entra", entra)
    ∷ (codes "aad", entra)
    ∷ (codes "azuread", entra)
    ∷ (codes "azure-ad", entra)
    ∷ (codes "kms", kms)
    ∷ (codes "awskms", kms)
    ∷ (codes "aws-kms", kms)
    ∷ (codes "azurekeyvault", kms)
    ∷ (codes "azure-keyvault", kms)
    ∷ (codes "akv", kms)
    ∷ (codes "gcpkms", kms)
    ∷ (codes "gcp-kms", kms)
    ∷ (codes "cyberark", kms)
    ∷ (codes "conjur", kms)
    ∷ (codes "vault", vault)
    ∷ (codes "hashicorp-vault", vault)
    ∷ (codes "hcvault", vault)
    ∷ []

-- `m[key]` for a map from strings to protocols
unfoldable pub lookup_alias : Str → List (Str × Protocol) → Option Protocol
unfolding str_eq
lookup_alias s [] = none
lookup_alias s ((k, p) ∷ m) = if str_eq k s then some p else lookup_alias s m

or_443 : Option ℕ → ℕ
or_443 (some port) = port
or_443 none = 443

-- GetDefaultPort
unfoldable pub get_default_port : Protocol → ℕ
unfolding protocol_default_ports or_443
get_default_port p = or_443 (protocol_default_ports p)

unfoldable pub found_alias : Option Protocol → Protocol × ℕ × Bool
unfolding get_default_port
found_alias (some p) = (p, get_default_port p, true)
found_alias none = (tcp, 443, false)

-- NormalizeProtocol
unfoldable pub normalize_protocol : Str → Protocol × ℕ × Bool
unfolding found_alias lookup_alias trim_space to_lower protocol_aliases
normalize_protocol input = found_alias (lookup_alias (to_lower (trim_space input)) protocol_aliases)
