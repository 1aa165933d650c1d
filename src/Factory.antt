-- ===== src/Factory.antt =====
-- pkg/probers/factory.go: `BuildPinger`. The structures of the options are in the children, and so
-- are the cases of the switch by the kind of pinger that they construct.
pub mod Options
pub mod Wire
pub mod Service
pub mod Shape
use netping.Common.{◌*◌, Bool, true, false, Duration, pos, second, le_zero, if◌then◌else◌, []}
use netping.Consts.{
  Protocol, tls, udp, http, https, icmp, grpc, grpcs, ws, wss, dns, dot, doh, redis, rediss, ssh,
  postgres, mysql, mssql, oracle, mongodb, mongodbs, mongodbsrv, cassandra, cassandras, saphana,
  memcached, memcacheds, smtp, smtps, imap, imaps, pop3, pop3s, ldap, ldaps, o365, s3, azureblob,
  gcs, kafka, kafkas, rabbitmq, amqp, amqps, smb, rsync, ftp, ftps, kerberos, kerberosudp, oidc,
  saml, oauth2, sso, winrm, winrms, entra, kms, vault,
}
use netping.Pingers.{Construction}
use netping.Pingers.Service.{
  postgresql_db, mysql_db, mssql_db, oracle_db, mongo_db, cassandra_db, saphana_db, mail_smtp,
  mail_imap, mail_pop3, queue_kafka, queue_rabbitmq, storage_s3, storage_azure_blob, storage_gcs,
}
use netping.Pingers.Identity.{sso_type_oidc, sso_type_saml, sso_type_oauth2, sso_type_auto}
use Options.{FactoryOptions}
use Wire.{
  build_http, build_udp, build_icmp, build_grpc, build_ws, build_dns_query, build_redis, build_ssh,
  build_tls, build_tcp,
}
use Service.{
  build_db, build_memcached, build_mail, build_ldap, build_o365, build_storage, build_queue,
  build_smb, build_rsync, build_ftp, build_kerberos, build_sso, build_winrm, build_entra, build_kms,
}

-- the switch on `opts.Protocol`
unfoldable pub dispatch : Protocol → Duration → FactoryOptions → Construction
unfolding build_http build_udp build_icmp build_grpc build_ws build_dns_query build_redis build_ssh
    build_tls build_tcp build_db build_memcached build_mail build_ldap build_o365 build_storage
    build_queue build_smb build_rsync build_ftp build_kerberos build_sso build_winrm build_entra
    build_kms
dispatch tls timeout o = build_tls timeout o
dispatch udp timeout o = build_udp timeout o
dispatch http timeout o = build_http timeout o
dispatch https timeout o = build_http timeout o
dispatch icmp timeout o = build_icmp timeout o
dispatch grpc timeout o = build_grpc false timeout o
dispatch grpcs timeout o = build_grpc true timeout o
dispatch ws timeout o = build_ws false timeout o
dispatch wss timeout o = build_ws true timeout o
dispatch dns timeout o = build_dns_query false false timeout o
dispatch dot timeout o = build_dns_query false true timeout o
dispatch doh timeout o = build_dns_query true false timeout o
dispatch redis timeout o = build_redis false timeout o
dispatch rediss timeout o = build_redis true timeout o
dispatch ssh timeout o = build_ssh timeout o
dispatch postgres timeout o = build_db postgresql_db [] false timeout o
dispatch mysql timeout o = build_db mysql_db [] false timeout o
dispatch mssql timeout o = build_db mssql_db [] false timeout o
dispatch oracle timeout o = build_db oracle_db o.service_name false timeout o
dispatch mongodb timeout o = build_db mongo_db [] false timeout o
dispatch mongodbs timeout o = build_db mongo_db [] true timeout o
dispatch mongodbsrv timeout o = build_db mongo_db [] true timeout o
dispatch cassandra timeout o = build_db cassandra_db [] false timeout o
dispatch cassandras timeout o = build_db cassandra_db [] true timeout o
dispatch saphana timeout o = build_db saphana_db [] false timeout o
dispatch memcached timeout o = build_memcached false timeout o
dispatch memcacheds timeout o = build_memcached true timeout o
dispatch smtp timeout o = build_mail mail_smtp false o.start_tls timeout o
dispatch smtps timeout o = build_mail mail_smtp true false timeout o
dispatch imap timeout o = build_mail mail_imap false o.start_tls timeout o
dispatch imaps timeout o = build_mail mail_imap true false timeout o
dispatch pop3 timeout o = build_mail mail_pop3 false o.start_tls timeout o
dispatch pop3s timeout o = build_mail mail_pop3 true false timeout o
dispatch ldap timeout o = build_ldap false timeout o
dispatch ldaps timeout o = build_ldap true timeout o
dispatch o365 timeout o = build_o365 timeout o
dispatch s3 timeout o = build_storage storage_s3 timeout o
dispatch azureblob timeout o = build_storage storage_azure_blob timeout o
dispatch gcs timeout o = build_storage storage_gcs timeout o
dispatch kafka timeout o = build_queue queue_kafka false timeout o
dispatch kafkas timeout o = build_queue queue_kafka true timeout o
dispatch rabbitmq timeout o = build_queue queue_rabbitmq false timeout o
dispatch amqp timeout o = build_queue queue_rabbitmq false timeout o
dispatch amqps timeout o = build_queue queue_rabbitmq true timeout o
dispatch smb timeout o = build_smb timeout o
dispatch rsync timeout o = build_rsync timeout o
dispatch ftp timeout o = build_ftp false timeout o
dispatch ftps timeout o = build_ftp true timeout o
dispatch kerberos timeout o = build_kerberos false timeout o
dispatch kerberosudp timeout o = build_kerberos true timeout o
dispatch oidc timeout o = build_sso sso_type_oidc timeout o
dispatch saml timeout o = build_sso sso_type_saml timeout o
dispatch oauth2 timeout o = build_sso sso_type_oauth2 timeout o
dispatch sso timeout o = build_sso sso_type_auto timeout o
dispatch winrm timeout o = build_winrm false timeout o
dispatch winrms timeout o = build_winrm true timeout o
dispatch entra timeout o = build_entra timeout o
dispatch kms timeout o = build_kms timeout o
dispatch vault timeout o = build_kms timeout o
dispatch _ timeout o = build_tcp timeout o

-- `timeout <= 0` gives way to two seconds
abbrev pub effective_timeout : Duration → Duration
effective_timeout timeout = if le_zero timeout then pos (2 * second) else timeout

-- BuildPinger
unfoldable pub build_pinger : FactoryOptions → Construction
unfolding dispatch
build_pinger o = dispatch o.protocol (effective_timeout o.timeout) o
