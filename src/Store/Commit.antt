-- ===== src/Store/Commit.antt =====
-- Changes of an account's resources that enqueue a job: commitAsyncMutationLocked and its callers
-- in internal/store/async_atomic.go. Each has a check of the store and a change of it; the commit
-- answers a replay first, and then makes the change, stores the job and appends the event.
pub mod Replay
pub mod Hosting
pub mod Post
use kelmor.Base.{String, Bool, false, Option, none, some, [], ◌∷◌, ◌==◌}
use kelmor.Store.Models.{Job, AuditEvent}
use kelmor.Store.Memory.{Memory}
use kelmor.Store.Normal.{
  normalize_job, normalize_audit, job_replay, validate_new_job, put_job, push_audit,
}
use kelmor.Store.Op.{
  StoreError, errorf, Result, Env, ◌>>=◌, ◌>>◌, pure, get, modify, refuse_some, given, reply, run,
}

-- A row that is there and belongs to the account.
abbrev pub owned_by {ℓ} : {V : Type ℓ} → (V → String) → String → Option V → Bool
owned_by account_of id none = false
owned_by account_of id (some v) = account_of v == id

unfoldable pub commit_async_mutation :
    Env
    → Option Job
    → AuditEvent
    → (Memory → Option StoreError)
    → (Memory → Memory)
    → Memory
    → Memory × Result Job
commit_async_mutation env job? audit validate mutate = run do
  job ← given job? (errorf "job is required" [])
  m ← get
  reply (job_replay job m)
  refuse_some (validate m)
  let job' = normalize_job env job
  validate_new_job job'
  modify mutate
  modify (put_job job')
  modify (push_audit (normalize_audit env job' audit))
  pure job'
