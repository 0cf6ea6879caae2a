-- ===== src/Store/Models/Tenant.antt =====
-- Users, sessions, packages, resellers and accounts: the structs of internal/store/models.go.
use kelmor.Base.{ℕ, String, Bool, Option, List}
use kelmor.Base.Table.{Table}

pub record User : Type 0 where
  pub id : String
  pub username : String
  pub email : String
  pub password_hash : String
  pub display_name : String
  pub status : String
  pub totp_enabled : Bool
  pub must_change_password : Bool
  pub roles : List String
  pub created_at : ℕ

pub record Session : Type 0 where
  pub id : String
  pub user_id : String
  pub token_hash : List ℕ
  pub expires_at : ℕ
  pub revoked_at : Option ℕ
  pub source_ip : String
  pub user_agent : String
  pub impersonator_id : String
  pub impersonation_reason : String

pub record FeatureSet : Type 0 where
  pub id : String
  pub name : String
  pub features : Table Bool

pub record Package : Type 0 where
  pub id : String
  pub reseller_id : String
  pub name : String
  pub feature_set_id : String
  pub disk_bytes : ℕ
  pub bandwidth_bytes_monthly : ℕ
  pub domains : ℕ
  pub subdomains : ℕ
  pub alias_domains : ℕ
  pub databases : ℕ
  pub database_users : ℕ
  pub mailboxes : ℕ
  pub mailbox_storage_bytes : ℕ
  pub ftp_users : ℕ
  pub cron_jobs : ℕ
  pub application_instances : ℕ
  pub backup_retention_days : ℕ
  pub cpu_percent : ℕ
  pub memory_bytes : ℕ
  pub process_limit : ℕ
  pub io_weight : ℕ
  pub iops : ℕ
  pub concurrent_web_requests : ℕ
  pub email_daily_limit : ℕ

pub record Reseller : Type 0 where
  pub id : String
  pub user_id : String
  pub name : String
  pub brand_name : String
  pub privilege_mask : List String
  pub nameservers : List String
  pub status : String

pub record Account : Type 0 where
  pub id : String
  pub reseller_id : String
  pub owner_user_id : String
  pub username : String
  pub primary_domain : String
  pub linux_uid : ℕ
  pub linux_gid : ℕ
  pub package_id : String
  pub status : String
  pub home_path : String
  pub ip_address : String
  pub shell_class : String
  pub login_disabled : Bool
  pub desired_revision : ℕ
  pub observed_revision : ℕ
