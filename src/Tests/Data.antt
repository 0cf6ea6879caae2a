-- ===== src/Tests/Data.antt =====
-- Rows and stores for the tests.
use kelmor.Base.{ℕ, zero, suc, String, false, true, none, some, [], ◌∷◌}
use kelmor.Store.Models.{
  Job, AuditEvent, Account, User, Domain, Package, RestoreJournal, Certificate,
}
use kelmor.Store.Memory.{Memory, new_memory}
use kelmor.Store.Op.{Env}

abbrev pub env : Env
env = record { now = 1000; job_id = "job-new"; audit_id = "audit-new"; restore_id = "restore-new" }

abbrev pub later : Env
later = record { now = 2000; job_id = "job-2"; audit_id = "audit-2"; restore_id = "restore-2" }

-- Fences as the tests print them: only small ones come up.
abbrev pub print : ℕ → String
print zero = "0"
print (suc zero) = "1"
print (suc (suc zero)) = "2"
print (suc (suc (suc n))) = "many"

abbrev pub job_of : String → ℕ → ℕ → String → Job
job_of id priority created_at state = record {
  id = id;
  type = "account.provision";
  resource_type = "account";
  resource_id = "acc-1";
  payload = [];
  state = state;
  priority = priority;
  attempts = 0;
  max_attempts = 5;
  progress = 0;
  target_revision = 0;
  fence = 0;
  operation_id = "";
  run_after = created_at;
  locked_by = "";
  heartbeat_at = none;
  lease_expires = none;
  cancel_requested = false;
  idempotency_key = "";
  last_error = "";
  actor_id = "admin";
  request_id = "req-1";
  created_at = created_at;
  started_at = none;
  finished_at = none;
  logs = [];
  retryable = none;
}

abbrev pub keyed_job : String → String → Job
keyed_job id key = record (job_of id 0 0 "") { idempotency_key = key; resource_id = "" }

abbrev pub event : AuditEvent
event = record {
  id = "";
  occurred_at = 0;
  actor_type = "user";
  actor_id = "admin";
  effective_actor = "admin";
  account_id = "acc-1";
  action = "account.create";
  resource_type = "account";
  resource_id = "acc-1";
  source_ip = "192.0.2.1";
  user_agent = "test";
  request_id = "";
  success = true;
  before = [];
  after = [];
  metadata = [];
}

abbrev pub user_of : String → String → User
user_of id username = record {
  id = id;
  username = username;
  email = username;
  password_hash = "";
  display_name = username;
  status = "active";
  totp_enabled = false;
  must_change_password = false;
  roles = "customer_owner" ∷ [];
  created_at = 1;
}

abbrev pub account_of : String → String → ℕ → Account
account_of id username revision = record {
  id = id;
  reseller_id = "";
  owner_user_id = "user-1";
  username = username;
  primary_domain = "example.test";
  linux_uid = 0;
  linux_gid = 0;
  package_id = "basic";
  status = "pending";
  home_path = "/home/kelmor";
  ip_address = "";
  shell_class = "none";
  login_disabled = false;
  desired_revision = revision;
  observed_revision = 0;
}

abbrev pub basic : Package
basic = record {
  id = "basic";
  reseller_id = "";
  name = "Basic";
  feature_set_id = "";
  disk_bytes = 0;
  bandwidth_bytes_monthly = 0;
  domains = 1;
  subdomains = 1;
  alias_domains = 1;
  databases = 1;
  database_users = 1;
  mailboxes = 1;
  mailbox_storage_bytes = 0;
  ftp_users = 1;
  cron_jobs = 1;
  application_instances = 1;
  backup_retention_days = 1;
  cpu_percent = 100;
  memory_bytes = 0;
  process_limit = 10;
  io_weight = 1;
  iops = 1;
  concurrent_web_requests = 1;
  email_daily_limit = 1;
}

abbrev pub journal_of : String → String → RestoreJournal
journal_of backup_id state = record {
  id = "";
  account_id = "acc-1";
  backup_id = backup_id;
  actor_id = "admin";
  object_key = "key";
  manifest_hash = "";
  format_version = 1;
  key_identity = "";
  key_version = 1;
  fence = 0;
  state = state;
  manual_intervention = false;
  checkpoints = [];
  extra = [];
  created_at = 0;
  updated_at = 0;
}

abbrev pub cert_of : String → String → Certificate
cert_of id hostname = record {
  id = id;
  account_id = "acc-1";
  hostname = hostname;
  kind = "acme";
  status = "active";
  not_after = none;
  issuer = "";
}

abbrev pub domain_of : String → String → String → Domain
domain_of id account_id ascii = record {
  id = id;
  account_id = account_id;
  fqdn = ascii;
  ascii = ascii;
  type = "primary";
  document_root = "public_html";
  dns_managed = true;
  status = "pending";
  desired_revision = 1;
  observed_revision = 0;
}

-- Two jobs wait, and a third runs under a lease that is over.
abbrev pub busy : Memory
busy = record new_memory {
  jobs =
      ("job-1", job_of "job-1" 7 10 "queued")
      ∷ ("job-2", job_of "job-2" 1 20 "queued")
      ∷ ("job-3", record (job_of "job-3" 9 5 "running") { lease_expires = some 900 })
      ∷ [];
}

-- A store with a package and one account.
abbrev pub hosting : Memory
hosting = record new_memory {
  packages = ("basic", basic) ∷ [];
  users = ("user-0", user_of "user-0" "ada") ∷ [];
  accounts = ("acc-0", account_of "acc-0" "ada" 3) ∷ [];
  domains = ("dom-0", domain_of "dom-0" "acc-0" "ada.test") ∷ [];
}
