-- ===== src/Store/Normal.antt =====
-- What every method does to a new job and its audit event: normalizeJob, validateNewJobLocked
-- (memory.go), normalizeAudit and jobReplayLocked (resource_atomic.go, internal/store).
use kelmor.Base.{ℕ, String, Option, none, some, [], ◌∷◌, ◌++◌, nat_eq, ◌==◌, if◌then◌else◌, is_some}
use kelmor.Base.Table.{lookup, insert, find}
use kelmor.Store.Models.{Value, Job, AuditEvent}
use kelmor.Store.Memory.{Memory}
use kelmor.Store.Op.{errorf, Env, Op, ◌>>=◌, ◌>>◌, get, refuse}

abbrev pub payload_revision : Option Value → ℕ
payload_revision (some (Value.int n)) = n
payload_revision (some (Value.int64 n)) = n
payload_revision (some (Value.float64 n)) = n
payload_revision _ = 0

abbrev pub or_zero : ℕ → ℕ → ℕ
or_zero n fallback = if nat_eq n 0 then fallback else n

abbrev pub or_empty : String → String → String
or_empty s fallback = if s == "" then fallback else s

unfoldable pub normalize_job : Env → Job → Job
normalize_job env j = record j {
  retryable = none;
  target_revision =
      or_zero (or_zero j.target_revision (payload_revision (lookup "target_revision" j.payload))) 1;
  id = or_empty j.id env.job_id;
  created_at = or_zero j.created_at env.now;
  run_after = or_zero j.run_after env.now;
  max_attempts = or_zero j.max_attempts 5;
  state = or_empty j.state "queued";
}

unfoldable pub normalize_audit : Env → Job → AuditEvent → AuditEvent
normalize_audit env job event = record event {
  id = or_empty event.id env.audit_id;
  occurred_at = or_zero event.occurred_at env.now;
  request_id = or_empty event.request_id job.request_id;
}

-- The first job met that has the key.
unfoldable pub job_with_key : String → Memory → Option Job
job_with_key key m = find (λ e. e.idempotency_key == key) m.jobs

unfoldable pub job_replay : Job → Memory → Option Job
job_replay job m = if job.idempotency_key == "" then none else job_with_key job.idempotency_key m

unfoldable pub validate_new_job : {R : Type 0} → Job → Op R (Unit {0})
validate_new_job job = do
  m ← get
  refuse (is_some (lookup job.id m.jobs)) (errorf "job %q already exists" (job.id ∷ []))
  refuse (is_some (job_replay job m))
      (errorf "job idempotency key %q already exists" (job.idempotency_key ∷ []))

abbrev pub put_job : Job → Memory → Memory
put_job j m = record m { jobs = insert j.id j m.jobs }

abbrev pub push_audit : AuditEvent → Memory → Memory
push_audit e m = record m { audit = m.audit ++ (e ∷ []) }

-- The event that a method appends, if it was given one.
abbrev pub with_audit : Env → Job → Option AuditEvent → Memory → Memory
with_audit env job none m = m
with_audit env job (some e) m = push_audit (normalize_audit env job e) m
