-- ===== src/Store/Models/Work.antt =====
-- Jobs, audit events, tokens, backups and restore journals (internal/store/models.go).
use kelmor.Base.{ℕ, String, Bool, Option, List}
use kelmor.Base.Table.{Table}
use kelmor.Store.Models.Payload.{Value}

pub record Job : Type 0 where
  pub id : String
  pub type : String
  pub resource_type : String
  pub resource_id : String
  pub payload : Table Value
  pub state : String
  pub priority : ℕ
  pub attempts : ℕ
  pub max_attempts : ℕ
  pub progress : ℕ
  pub target_revision : ℕ
  pub fence : ℕ
  pub operation_id : String
  pub run_after : ℕ
  pub locked_by : String
  pub heartbeat_at : Option ℕ
  pub lease_expires : Option ℕ
  pub cancel_requested : Bool
  pub idempotency_key : String
  pub last_error : String
  pub actor_id : String
  pub request_id : String
  pub created_at : ℕ
  pub started_at : Option ℕ
  pub finished_at : Option ℕ
  pub logs : List String
  pub retryable : Option Bool

pub record AuditEvent : Type 0 where
  pub id : String
  pub occurred_at : ℕ
  pub actor_type : String
  pub actor_id : String
  pub effective_actor : String
  pub account_id : String
  pub action : String
  pub resource_type : String
  pub resource_id : String
  pub source_ip : String
  pub user_agent : String
  pub request_id : String
  pub success : Bool
  pub before : Table Value
  pub after : Table Value
  pub metadata : Table Value

pub record ApiToken : Type 0 where
  pub id : String
  pub user_id : String
  pub name : String
  pub prefix : String
  pub token_hash : List ℕ
  pub scope : String
  pub account_id : String
  pub capabilities : List String
  pub expires_at : Option ℕ
  pub revoked_at : Option ℕ

pub record BackupRun : Type 0 where
  pub id : String
  pub account_id : String
  pub kind : String
  pub state : String
  pub destination : String
  pub checksum : String
  pub size_bytes : ℕ
  pub created_at : ℕ
  pub finished_at : Option ℕ
  pub manifest : Table Value

pub record RestoreJournal : Type 0 where
  pub id : String
  pub account_id : String
  pub backup_id : String
  pub actor_id : String
  pub object_key : String
  pub manifest_hash : String
  pub format_version : ℕ
  pub key_identity : String
  pub key_version : ℕ
  pub fence : ℕ
  pub state : String
  pub manual_intervention : Bool
  pub checkpoints : List String
  pub extra : Table Value
  pub created_at : ℕ
  pub updated_at : ℕ
