-- ===== src/Store/Models/Site.antt =====
-- What an account owns on the host: domains, sites, databases, zones, certificates and usage
-- (internal/store/models.go).
use kelmor.Base.{ℕ, String, Bool, Option, List}

pub record Domain : Type 0 where
  pub id : String
  pub account_id : String
  pub fqdn : String
  pub ascii : String
  pub type : String
  pub document_root : String
  pub dns_managed : Bool
  pub status : String
  pub desired_revision : ℕ
  pub observed_revision : ℕ

pub record Website : Type 0 where
  pub id : String
  pub account_id : String
  pub domain_id : String
  pub runtime : String
  pub runtime_version : String
  pub document_root : String
  pub https_redirect : Bool
  pub www_redirect : String
  pub proxy_target : String
  pub enabled : Bool
  pub desired_revision : ℕ
  pub observed_revision : ℕ

pub record Application : Type 0 where
  pub id : String
  pub website_id : String
  pub account_id : String
  pub runtime : String
  pub runtime_version : String
  pub working_directory : String
  pub start_command : String
  pub listen_target : String
  pub status : String

pub record HostedDatabase : Type 0 where
  pub id : String
  pub account_id : String
  pub engine : String
  pub name : String
  pub status : String

pub record DatabaseUser : Type 0 where
  pub id : String
  pub account_id : String
  pub username : String
  pub engine : String
  pub password_enc : List ℕ

pub record DnsZone : Type 0 where
  pub id : String
  pub account_id : String
  pub domain_id : String
  pub name : String
  pub dnssec_enabled : Bool
  pub provider : String
  pub desired_revision : ℕ
  pub observed_revision : ℕ
  pub record_count : ℕ

pub record DnsRecord : Type 0 where
  pub id : String
  pub zone_id : String
  pub name : String
  pub type : String
  pub content : String
  pub ttl : ℕ
  pub priority : Option ℕ

pub record Certificate : Type 0 where
  pub id : String
  pub account_id : String
  pub hostname : String
  pub kind : String
  pub status : String
  pub not_after : Option ℕ
  pub issuer : String

pub record CronJob : Type 0 where
  pub id : String
  pub account_id : String
  pub schedule : String
  pub command : String
  pub working_directory : String
  pub enabled : Bool

pub record SshKey : Type 0 where
  pub id : String
  pub account_id : String
  pub label : String
  pub public_key : String
  pub fingerprint : String
  pub created_at : ℕ

pub record FtpAccount : Type 0 where
  pub id : String
  pub account_id : String
  pub username : String
  pub home_path : String
  pub password_hash : String
  pub status : String

pub record Usage : Type 0 where
  pub account_id : String
  pub collected_at : ℕ
  pub disk_bytes : ℕ
  pub inode_count : ℕ
  pub bandwidth_bytes : ℕ
  pub cpu_percent : ℕ
  pub memory_bytes : ℕ
  pub process_count : ℕ
  pub disk_limited : Bool
  pub bandwidth_hold : Bool
  pub enforced_at : Option ℕ
  pub stale_seconds : ℕ
