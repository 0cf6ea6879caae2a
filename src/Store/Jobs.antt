-- ===== src/Store/Jobs.antt =====
-- The queue of jobs: the job methods of memory.go that take no lease, EnqueueJobWithAudit of
-- resource_atomic.go and acceptJobMutation of fence.go (internal/store).
pub mod Keys
use kelmor.Base.{
  String, Bool, true, not, ◌&&◌, Option, none, some, [], ◌∷◌, nat_eq, ◌==◌, if◌then◌else◌,
}
use kelmor.Base.Table.{lookup, insert}
use kelmor.Store.Models.{Job, AuditEvent}
use kelmor.Store.Memory.{Memory}
use kelmor.Store.Normal.{
  normalize_job, normalize_audit, job_with_key, job_replay, validate_new_job, put_job, push_audit,
}
use kelmor.Store.Op.{
  StoreError, stale_fence, job_not_found, job_state_conflict, errorf, Result, ok, err, Env, ◌>>=◌,
  ◌>>◌, pure, get, modify, refuse, given, reply, run,
}

unfoldable pub accept_job_mutation : Option Job → Job → Option StoreError
accept_job_mutation none incoming = none
accept_job_mutation (some existing) incoming =
    if nat_eq existing.fence 0
    then none
    else if nat_eq incoming.fence existing.fence
    then none
    else some stale_fence

-- EnqueueJob does not look whether the job's own id is taken.
unfoldable pub enqueue_job : Env → Job → Memory → Memory × Result Job
enqueue_job env j =
    run
      do m ← get; reply (job_replay j m); let j' = normalize_job env j; modify (put_job j'); pure j'

unfoldable pub enqueue_job_with_audit : Env → Option Job → AuditEvent → Memory → Memory × Result Job
enqueue_job_with_audit env job audit = run do
  j ← given job (errorf "job is required" [])
  m ← get
  reply (job_replay j m)
  let j' = normalize_job env j
  validate_new_job j'
  modify (put_job j')
  modify (push_audit (normalize_audit env j' audit))
  pure j'

unfoldable pub job_by_idempotency_key : String → Memory → Option Job
job_by_idempotency_key key m = if key == "" then none else job_with_key key m

unfoldable pub rotate_password_and_enqueue :
    Env → String → String → Bool → Job → Memory → Memory × Result Job
rotate_password_and_enqueue env user_id password_hash must_change j = run do
  m ← get
  user ← given (lookup user_id m.users) (errorf "user %q not found" (user_id ∷ []))
  let j' = normalize_job env j
  validate_new_job j'
  let user' = record user { password_hash = password_hash; must_change_password = must_change }
  modify (λ s. record s { users = insert user_id user' s.users })
  modify (put_job j')
  pure j'

unfoldable pub request_job_cancel : String → Memory → Memory × Result (Unit {0})
request_job_cancel job_id = run do
  m ← get
  j ← given (lookup job_id m.jobs) job_not_found
  refuse (not (j.state == "running")) job_state_conflict
  modify (λ s. record s { jobs = insert job_id (record j { cancel_requested = true }) s.jobs })

unfoldable pub update_job : Job → Memory → Memory × Result (Unit {0})
update_job j m = elim (accept_job_mutation (lookup j.id m.jobs) j) [
  | some e ↦ (m, err e)
  | none ↦ (put_job (record j { retryable = none }) m, ok tt)
]

unfoldable pub get_job : String → Memory → Option Job
get_job id m = lookup id m.jobs

unfoldable pub cancel_job : Env → String → String → String → Memory → Memory × Result Job
cancel_job env job_id actor_id request_id = run do
  m ← get
  job ← given (lookup job_id m.jobs) job_not_found
  refuse (not (job.state == "queued") && not (job.state == "failed")) job_state_conflict
  let job' = record job {
    state = "cancelled";
    finished_at = some env.now;
    locked_by = "";
    heartbeat_at = none;
    actor_id = actor_id;
    request_id = request_id;
    retryable = none;
  }
  modify (λ s. record s { jobs = insert job_id job' s.jobs })
  pure job'
