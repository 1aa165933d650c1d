-- ===== src/Pingers/Service.antt =====
-- The options of the pingers in pkg/probers/{db,memcached,mail,ldap,o365,storage,queue,smb,rsync,ftp}.go.
use netping.Common.{ℕ, Str, Bool, Duration, Addr}
use netping.Pingers.Pointer.{Pointer}

pub data DbType : Type 0 where
  postgresql_db mysql_db mssql_db oracle_db mongo_db cassandra_db saphana_db : DbType

pub data MailProtocol : Type 0 where
  mail_smtp mail_imap mail_pop3 : MailProtocol

pub data QueueProtocol : Type 0 where
  queue_kafka queue_rabbitmq : QueueProtocol

pub data StorageType : Type 0 where
  storage_s3 storage_azure_blob storage_gcs : StorageType

pub record DbOptions : Type 0 where
  pub kind : DbType
  pub hostname : Str
  pub ip : Addr
  pub port : ℕ
  pub service_name : Str
  pub use_tls : Bool
  pub timeout : Duration
  pub dialer : Pointer

pub record MemcachedOptions : Type 0 where
  pub hostname : Str
  pub ip : Addr
  pub port : ℕ
  pub use_tls : Bool
  pub timeout : Duration
  pub dialer : Pointer

pub record MailOptions : Type 0 where
  pub protocol : MailProtocol
  pub hostname : Str
  pub ip : Addr
  pub port : ℕ
  pub use_tls : Bool
  pub start_tls : Bool
  pub timeout : Duration
  pub dialer : Pointer

pub record LdapOptions : Type 0 where
  pub hostname : Str
  pub ip : Addr
  pub port : ℕ
  pub use_tls : Bool
  pub timeout : Duration
  pub dialer : Pointer

pub record O365Options : Type 0 where
  pub hostname : Str
  pub ip : Addr
  pub port : ℕ
  pub skip_verify : Bool
  pub timeout : Duration
  pub dialer : Pointer

pub record StorageOptions : Type 0 where
  pub kind : StorageType
  pub hostname : Str
  pub ip : Addr
  pub port : ℕ
  pub skip_verify : Bool
  pub timeout : Duration
  pub dialer : Pointer

pub record QueueOptions : Type 0 where
  pub protocol : QueueProtocol
  pub hostname : Str
  pub ip : Addr
  pub port : ℕ
  pub use_tls : Bool
  pub skip_verify : Bool
  pub timeout : Duration
  pub dialer : Pointer

pub record SmbOptions : Type 0 where
  pub hostname : Str
  pub ip : Addr
  pub port : ℕ
  pub timeout : Duration
  pub dialer : Pointer

pub record RsyncOptions : Type 0 where
  pub hostname : Str
  pub ip : Addr
  pub port : ℕ
  pub timeout : Duration
  pub dialer : Pointer

pub record FtpOptions : Type 0 where
  pub hostname : Str
  pub ip : Addr
  pub port : ℕ
  pub use_tls : Bool
  pub start_tls : Bool
  pub timeout : Duration
  pub dialer : Pointer
