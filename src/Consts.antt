-- ===== src/Consts.antt =====
-- pkg/consts/consts.go: the protocol identifiers and the diagnostic exit codes.
pub mod Protocols
use netping.Common.{ℕ, Str, String, codes, Bool, true, false, List, [], ◌∷◌}

-- A `Protocol` is a string: a constructor for each constant, and `custom` for any other string.
pub data Protocol : Type 0 where
  tcp tls udp http https icmp grpc grpcs ws wss dns dot doh redis rediss ssh postgres : Protocol
  mysql mssql oracle mongodb mongodbs mongodbsrv cassandra cassandras saphana memcached : Protocol
  memcacheds smtp smtps imap imaps pop3 pop3s ldap ldaps o365 s3 azureblob gcs kafka : Protocol
  kafkas rabbitmq amqp amqps smb rsync ftp ftps kerberos kerberosudp oidc saml oauth2 sso : Protocol
  winrm winrms entra kms vault : Protocol
  custom : Str → Protocol

-- string(p)
unfoldable pub protocol_str : Protocol → Str
protocol_str tcp = codes "TCP"
protocol_str tls = codes "TLS"
protocol_str udp = codes "UDP"
protocol_str http = codes "HTTP"
protocol_str https = codes "HTTPS"
protocol_str icmp = codes "ICMP"
protocol_str grpc = codes "GRPC"
protocol_str grpcs = codes "GRPCS"
protocol_str ws = codes "WS"
protocol_str wss = codes "WSS"
protocol_str dns = codes "DNS"
protocol_str dot = codes "DOT"
protocol_str doh = codes "DOH"
protocol_str redis = codes "REDIS"
protocol_str rediss = codes "REDISS"
protocol_str ssh = codes "SSH"
protocol_str postgres = codes "POSTGRES"
protocol_str mysql = codes "MYSQL"
protocol_str mssql = codes "MSSQL"
protocol_str oracle = codes "ORACLE"
protocol_str mongodb = codes "MONGODB"
protocol_str mongodbs = codes "MONGODBS"
protocol_str mongodbsrv = codes "MONGODB+SRV"
protocol_str cassandra = codes "CASSANDRA"
protocol_str cassandras = codes "CASSANDRAS"
protocol_str saphana = codes "SAPHANA"
protocol_str memcached = codes "MEMCACHED"
protocol_str memcacheds = codes "MEMCACHEDS"
protocol_str smtp = codes "SMTP"
protocol_str smtps = codes "SMTPS"
protocol_str imap = codes "IMAP"
protocol_str imaps = codes "IMAPS"
protocol_str pop3 = codes "POP3"
protocol_str pop3s = codes "POP3S"
protocol_str ldap = codes "LDAP"
protocol_str ldaps = codes "LDAPS"
protocol_str o365 = codes "O365"
protocol_str s3 = codes "S3"
protocol_str azureblob = codes "AZUREBLOB"
protocol_str gcs = codes "GCS"
protocol_str kafka = codes "KAFKA"
protocol_str kafkas = codes "KAFKAS"
protocol_str rabbitmq = codes "RABBITMQ"
protocol_str amqp = codes "AMQP"
protocol_str amqps = codes "AMQPS"
protocol_str smb = codes "SMB"
protocol_str rsync = codes "RSYNC"
protocol_str ftp = codes "FTP"
protocol_str ftps = codes "FTPS"
protocol_str kerberos = codes "KERBEROS"
protocol_str kerberosudp = codes "KERBEROSUDP"
protocol_str oidc = codes "OIDC"
protocol_str saml = codes "SAML"
protocol_str oauth2 = codes "OAUTH2"
protocol_str sso = codes "SSO"
protocol_str winrm = codes "WINRM"
protocol_str winrms = codes "WINRMS"
protocol_str entra = codes "ENTRA"
protocol_str kms = codes "KMS"
protocol_str vault = codes "VAULT"
protocol_str (custom s) = s

abbrev pub exit_success : ℕ
exit_success = 0

abbrev pub exit_general_error : ℕ
exit_general_error = 1

abbrev pub exit_usage_error : ℕ
exit_usage_error = 2

abbrev pub exit_dns_resolution_failed : ℕ
exit_dns_resolution_failed = 3

abbrev pub exit_network_interface_error : ℕ
exit_network_interface_error = 4

abbrev pub exit_target_unreachable : ℕ
exit_target_unreachable = 5

abbrev pub exit_partial_packet_loss : ℕ
exit_partial_packet_loss = 6

abbrev pub exit_storage_error : ℕ
exit_storage_error = 7

abbrev pub exit_interrupted : ℕ
exit_interrupted = 130
