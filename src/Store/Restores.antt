-- ===== src/Store/Restores.antt =====
-- Restore journals: BeginRestore, CreateRestoreWithJob and the checkpoints of a restore in
-- internal/store/memory.go, with the states of internal/store/store.go.
pub mod Active
use kelmor.Base.{
  ℕ, String, ◌⧺◌, Bool, true, false, not, ◌&&◌, ◌||◌, Option, none, some, List, [], ◌∷◌, ◌++◌, ◌==◌,
  nat_eq, add64, if◌then◌else◌, is_some,
}
use kelmor.Base.Table.{Table, lookup, insert, find}
use kelmor.Store.Models.{Value, RestoreJournal, Job, AuditEvent}
use kelmor.Store.Memory.{Memory}
use kelmor.Store.Normal.{
  or_zero, or_empty, normalize_job, normalize_audit, job_replay, validate_new_job, put_job,
  push_audit,
}
use kelmor.Store.Op.{
  restore_in_progress, errorf, Result, Env, Op, next, ◌>>=◌, ◌>>◌, pure, get, modify, exit, ok,
  refuse, given, reply, run,
}

unfoldable pub restore_is_active : String → Bool
restore_is_active state =
    if state == "complete" || state == "failed" then false else not (state == "")

unfoldable pub is_active_for : String → RestoreJournal → Bool
is_active_for account_id j = j.account_id == account_id && restore_is_active j.state

unfoldable pub active_restore : String → Memory → Option RestoreJournal
active_restore account_id m = find (is_active_for account_id) m.restores

unfoldable pub normalize_restore : Env → RestoreJournal → RestoreJournal
normalize_restore env j = record j {
  id = or_empty j.id env.restore_id;
  state = or_empty j.state "restore_requested";
  created_at = or_zero j.created_at env.now;
  updated_at = env.now;
}

-- The next fence of the account's restores.
unfoldable pub next_restore_fence : RestoreJournal → Memory → ℕ
next_restore_fence j m =
    let last : ℕ = elim (lookup ("restore:" ⧺ j.account_id) m.resource_fences) [
      | none ↦ 0
      | some n ↦ n
    ] in
    add64 last 1

-- A journal with no fence takes the next one.
unfoldable pub fenced : RestoreJournal → Memory → RestoreJournal
fenced j m = record j { fence = if nat_eq j.fence 0 then next_restore_fence j m else j.fence }

unfoldable pub with_fence : {R : Type 0} → RestoreJournal → Op R RestoreJournal
with_fence j m = (
  record m {
    resource_fences =
        if nat_eq j.fence 0
        then insert ("restore:" ⧺ j.account_id) (next_restore_fence j m) m.resource_fences
        else m.resource_fences;
  },
  next (fenced j m),
)

abbrev pub put_restore : RestoreJournal → Memory → Memory
put_restore j m = record m { restores = insert j.id j m.restores }

-- While a restore of the account is active, only the same one may be begun again.
abbrev pub same_restore : RestoreJournal → RestoreJournal → Bool
same_restore existing j = existing.backup_id == j.backup_id && existing.object_key == j.object_key

abbrev pub resume_restore : Option RestoreJournal → RestoreJournal → Op RestoreJournal (Unit {0})
resume_restore none j = pure tt
resume_restore (some existing) j = do
  refuse (not (same_restore existing j)) restore_in_progress
  exit (ok existing)

unfoldable pub begin_restore : Env → Option RestoreJournal → Memory → Memory × Result RestoreJournal
begin_restore env journal? = run do
  journal ← given journal? (errorf "restore journal is required" [])
  m ← get
  resume_restore (active_restore journal.account_id m) journal
  j ← with_fence (normalize_restore env journal)
  modify (put_restore j)
  pure j

unfoldable pub create_restore_with_job :
    Env → Option RestoreJournal → Option Job → AuditEvent → Memory → Memory × Result Job
create_restore_with_job env journal? job? audit = run do
  journal ← given journal? (errorf "restore journal and job are required" [])
  job ← given job? (errorf "restore journal and job are required" [])
  m ← get
  reply (job_replay job m)
  refuse (is_some (active_restore journal.account_id m)) restore_in_progress
  let job' = normalize_job env job
  validate_new_job job'
  j ← with_fence (normalize_restore env journal)
  modify (put_restore j)
  modify (put_job job')
  modify (push_audit (normalize_audit env job' audit))
  pure job'

unfoldable pub get_restore : String → Memory → Option RestoreJournal
get_restore id m = lookup id m.restores

unfoldable pub get_active_restore : String → Memory → Option RestoreJournal
get_active_restore account_id m = active_restore account_id m

-- A `nil` map of extras keeps the old ones.
unfoldable pub checkpoint_restore :
    Env → String → String → Option (Table Value) → Memory → Memory × Result (Unit {0})
checkpoint_restore env id state extra = run do
  m ← get
  item ← given (lookup id m.restores) (errorf "restore journal missing" [])
  let item' = record item {
    state = state;
    checkpoints = item.checkpoints ++ (state ∷ []);
    updated_at = env.now;
    extra = elim extra [ none ↦ item.extra | some e ↦ e ];
  }
  modify (λ s. record s { restores = insert id item' s.restores })

unfoldable pub fail_restore : Env → String → String → Bool → Memory → Memory × Result (Unit {0})
fail_restore env id state manual = run do
  m ← get
  item ← given (lookup id m.restores) (errorf "restore journal missing" [])
  let item' = record item { state = state; manual_intervention = manual; updated_at = env.now }
  modify (λ s. record s { restores = insert id item' s.restores })

unfoldable pub finish_restore : Env → String → Memory → Memory × Result (Unit {0})
finish_restore env id = run do
  m ← get
  item ← given (lookup id m.restores) (errorf "restore journal missing" [])
  let item' = record item { state = "complete"; updated_at = env.now }
  modify (λ s. record s { restores = insert id item' s.restores })
