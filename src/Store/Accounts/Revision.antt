-- ===== src/Store/Accounts/Revision.antt =====
-- The revision test of updateAccountWithJob (internal/store/memory.go).
use kelmor.Base.{◌≡◌, false, Option, none, some, arith, ◌==◌, eq_refl}
use kelmor.Base.Table.{insert, lookup, lookup-insert}
use kelmor.Store.Models.{Account, Job, AuditEvent}
use kelmor.Store.Memory.{Memory}
use kelmor.Store.Op.{Env, ok, err, stale_account}
use kelmor.Store.Normal.{job_replay, validate_new_job}
use kelmor.Store.Accounts.{update_account_with_job, update_clash}

-- An update that is no replay found the revision before its own, and stored the account.
update_clash-none :
    (a : Account) (job : Job) (m : Memory) → update_clash a job m ≡ none → (a.id == "") ≡ false
unfolding update_clash
update_clash-none a job m e = ground arith

update_account_with_job_ok :
    (env : Env) (a : Account) (job j : Job) (audit : Option AuditEvent) (m : Memory)
    → job_replay job m ≡ none
    → (update_account_with_job env (some a) (some job) audit m).1 ≡ ok j
    → (update_clash a job m ≡ none)
      × ((update_account_with_job env (some a) (some job) audit m).0.accounts
          ≡ insert a.id a m.accounts)
unfolding update_account_with_job validate_new_job
update_account_with_job_ok env a job j audit m new h = (ground arith, ground arith)

update_clash_stale :
    (a b : Account) (job : Job) (m : Memory)
    → lookup b.id m.accounts ≡ some a
    → (b.id == "") ≡ false
    → b.desired_revision ≡ a.desired_revision
    → update_clash b job m ≡ some (stale_account b.id)
unfolding update_clash
update_clash_stale a b job m e named same = ground arith

update_account_with_job_refused :
    (env : Env) (b : Account) (job : Job) (audit : Option AuditEvent) (m : Memory)
    → job_replay job m ≡ none
    → update_clash b job m ≡ some (stale_account b.id)
    → update_account_with_job env (some b) (some job) audit m ≡ (m, err (stale_account b.id))
unfolding update_account_with_job
update_account_with_job_refused env b job audit m new e = ground arith

-- After UpdateAccountWithJob, called with a job that is no replay, has stored an account, a
-- second update of the account to the same desired revision, by a job that is no replay, is
-- refused as stale and changes nothing.
pub update_account_with_job-once :
    (env env' : Env) (a b : Account) (job job' j : Job) (audit audit' : Option AuditEvent)
    (m : Memory)
    → let m' = (update_account_with_job env (some a) (some job) audit m).0 in
      job_replay job m ≡ none
      → (update_account_with_job env (some a) (some job) audit m).1 ≡ ok j
      → b.id ≡ a.id
      → b.desired_revision ≡ a.desired_revision
      → job_replay job' m' ≡ none
      → update_account_with_job env' (some b) (some job') audit' m' ≡ (m', err (stale_account b.id))
update_account_with_job-once env env' a b job job' j audit audit' m new h id rev new' =
    update_account_with_job_refused env' b job' audit' _ new'
      (update_clash_stale a b job' _ stored named rev)
  where
    made :
        (update_clash a job m ≡ none)
        × ((update_account_with_job env (some a) (some job) audit m).0.accounts
            ≡ insert a.id a m.accounts)
    made = update_account_with_job_ok env a job j audit m new h

    stored :
        lookup b.id (update_account_with_job env (some a) (some job) audit m).0.accounts ≡ some a
    stored = rw (made.1, id, lookup-insert, eq_refl a.id)

    named : (b.id == "") ≡ false
    named = rw id (update_clash-none a job m made.0)
