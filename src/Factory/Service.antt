-- ===== src/Factory/Service.antt =====
-- The cases of `BuildPinger` in pkg/probers/factory.go, one function for each kind of pinger: the
-- cases of one kind differ in what the function takes first. Databases, mail, storage, queues, files and identity.
use netping.Common.{Str, Bool, false, [], Duration}
use netping.Factory.Options.{FactoryOptions}
use netping.Pingers.{
  Construction, db_pinger, memcached_pinger, mail_pinger, ldap_pinger, o365_pinger, storage_pinger,
  queue_pinger, smb_pinger, rsync_pinger, ftp_pinger, kerberos_pinger, sso_pinger, winrm_pinger,
  entra_pinger, kms_pinger,
}
use netping.Pingers.Service.{DbType, MailProtocol, StorageType, QueueProtocol}
use netping.Pingers.Identity.{SsoType, kms_type_auto}

unfoldable pub build_db : DbType → Str → Bool → Duration → FactoryOptions → Construction
build_db kind service_name use_tls timeout o = db_pinger (record {
  kind = kind;
  hostname = o.hostname;
  ip = o.ip;
  port = o.port;
  service_name = service_name;
  use_tls = use_tls;
  timeout = timeout;
  dialer = o.dialer;
})

unfoldable pub build_memcached : Bool → Duration → FactoryOptions → Construction
build_memcached use_tls timeout o = memcached_pinger (record {
  hostname = o.hostname;
  ip = o.ip;
  port = o.port;
  use_tls = use_tls;
  timeout = timeout;
  dialer = o.dialer;
})

unfoldable pub build_mail : MailProtocol → Bool → Bool → Duration → FactoryOptions → Construction
build_mail protocol use_tls start_tls timeout o = mail_pinger (record {
  protocol = protocol;
  hostname = o.hostname;
  ip = o.ip;
  port = o.port;
  use_tls = use_tls;
  start_tls = start_tls;
  timeout = timeout;
  dialer = o.dialer;
})

unfoldable pub build_ldap : Bool → Duration → FactoryOptions → Construction
build_ldap use_tls timeout o = ldap_pinger (record {
  hostname = o.hostname;
  ip = o.ip;
  port = o.port;
  use_tls = use_tls;
  timeout = timeout;
  dialer = o.dialer;
})

unfoldable pub build_o365 : Duration → FactoryOptions → Construction
build_o365 timeout o = o365_pinger (record {
  hostname = o.hostname;
  ip = o.ip;
  port = o.port;
  skip_verify = false;
  timeout = timeout;
  dialer = o.dialer;
})

unfoldable pub build_storage : StorageType → Duration → FactoryOptions → Construction
build_storage kind timeout o = storage_pinger (record {
  kind = kind;
  hostname = o.hostname;
  ip = o.ip;
  port = o.port;
  skip_verify = false;
  timeout = timeout;
  dialer = o.dialer;
})

unfoldable pub build_queue : QueueProtocol → Bool → Duration → FactoryOptions → Construction
build_queue protocol use_tls timeout o = queue_pinger (record {
  protocol = protocol;
  hostname = o.hostname;
  ip = o.ip;
  port = o.port;
  use_tls = use_tls;
  skip_verify = false;
  timeout = timeout;
  dialer = o.dialer;
})

unfoldable pub build_smb : Duration → FactoryOptions → Construction
build_smb timeout o = smb_pinger (record {
  hostname = o.hostname;
  ip = o.ip;
  port = o.port;
  timeout = timeout;
  dialer = o.dialer;
})

unfoldable pub build_rsync : Duration → FactoryOptions → Construction
build_rsync timeout o = rsync_pinger (record {
  hostname = o.hostname;
  ip = o.ip;
  port = o.port;
  timeout = timeout;
  dialer = o.dialer;
})

unfoldable pub build_ftp : Bool → Duration → FactoryOptions → Construction
build_ftp use_tls timeout o = ftp_pinger (record {
  hostname = o.hostname;
  ip = o.ip;
  port = o.port;
  use_tls = use_tls;
  start_tls = false;
  timeout = timeout;
  dialer = o.dialer;
})

unfoldable pub build_kerberos : Bool → Duration → FactoryOptions → Construction
build_kerberos is_udp timeout o = kerberos_pinger (record {
  hostname = o.hostname;
  ip = o.ip;
  port = o.port;
  is_udp = is_udp;
  realm = o.service_name;
  timeout = timeout;
  dialer = o.dialer;
})

unfoldable pub build_sso : SsoType → Duration → FactoryOptions → Construction
build_sso kind timeout o = sso_pinger (record {
  kind = kind;
  hostname = o.hostname;
  ip = o.ip;
  port = o.port;
  uri = o.uri;
  timeout = timeout;
  tls_config = o.tls_config;
  dialer = o.dialer;
  use_ipv4 = o.use_ipv4;
  use_ipv6 = o.use_ipv6;
})

unfoldable pub build_winrm : Bool → Duration → FactoryOptions → Construction
build_winrm use_tls timeout o = winrm_pinger (record {
  hostname = o.hostname;
  ip = o.ip;
  port = o.port;
  use_tls = use_tls;
  uri = o.uri;
  timeout = timeout;
  tls_config = o.tls_config;
  dialer = o.dialer;
  use_ipv4 = o.use_ipv4;
  use_ipv6 = o.use_ipv6;
})

unfoldable pub build_entra : Duration → FactoryOptions → Construction
build_entra timeout o = entra_pinger (record {
  hostname = o.hostname;
  tenant_id = [];
  ip = o.ip;
  port = o.port;
  uri = o.uri;
  timeout = timeout;
  tls_config = o.tls_config;
  dialer = o.dialer;
  use_ipv4 = o.use_ipv4;
  use_ipv6 = o.use_ipv6;
})

unfoldable pub build_kms : Duration → FactoryOptions → Construction
build_kms timeout o = kms_pinger (record {
  kind = kms_type_auto;
  hostname = o.hostname;
  ip = o.ip;
  port = o.port;
  uri = o.uri;
  timeout = timeout;
  tls_config = o.tls_config;
  dialer = o.dialer;
  use_ipv4 = o.use_ipv4;
  use_ipv6 = o.use_ipv6;
})
