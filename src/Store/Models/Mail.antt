-- ===== src/Store/Models/Mail.antt =====
-- Mail domains, mailboxes and aliases (internal/store/models.go).
use kelmor.Base.{ℕ, String}

pub record MailDomain : Type 0 where
  pub id : String
  pub account_id : String
  pub domain_id : String
  pub catchall_policy : String
  pub status : String

pub record Mailbox : Type 0 where
  pub id : String
  pub account_id : String
  pub domain_id : String
  pub local_part : String
  pub quota_bytes : ℕ
  pub password_hash : String
  pub status : String

pub record MailAlias : Type 0 where
  pub id : String
  pub account_id : String
  pub domain_id : String
  pub address : String
  pub destination : String
