-- ===== src/Tests/Tenants.antt =====
-- The theorems on accounts and commits, applied to a small store.
use kelmor.Base.{eq_iff, arith, refl, none, some, [], ◌∷◌, ◌≡◌}
use kelmor.Base.Table.{lookup, insert, find}
use kelmor.Store.Models.{Job}
use kelmor.Store.Memory.{Memory, new_memory}
use kelmor.Store.Op.{ok, err, stale_account, errorf}
use kelmor.Store.Normal.{normalize_job, job_replay, job_with_key, validate_new_job}
use kelmor.Store.Accounts.{
  create_account_with_job, update_account_with_job, update_clash, target, new_account_ids,
  account_clash, user_clash,
}
use kelmor.Store.Accounts.Atomic.{create_account_with_job_err, update_account_with_job_err}
use kelmor.Store.Accounts.Revision.{update_account_with_job-once}
use kelmor.Store.Accounts.Directory.{Directory, create_account_with_job-Directory}
use kelmor.Store.Commit.{commit_async_mutation}
use kelmor.Store.Commit.Replay.{commit_async_mutation-idempotent, commit_async_mutation_err}
use kelmor.Tests.Data.{
  env, later, hosting, event, user_of, account_of, domain_of, job_of, keyed_job,
}

abbrev new_account : Job
new_account = record (job_of "" 0 0 "") { resource_id = "acc-1" }

hosting-Directory : Directory hosting
unfolding new_memory
hosting-Directory = record {
  usernames = (tt, tt);
  emails = (tt, tt);
  account_names = (tt, tt);
  hostnames = (tt, tt);
}

create_account_with_job-Directory_example :
    Directory
      (create_account_with_job env
        (some (user_of "user-1" "bob"))
        (some (account_of "acc-1" "bob" 1))
        (some (domain_of "dom-1" "acc-1" "bob.test"))
        []
        (some new_account)
        (some event)
        hosting).0
create_account_with_job-Directory_example =
    create_account_with_job-Directory env (some (user_of "user-1" "bob"))
      (some (account_of "acc-1" "bob" 1)) (some (domain_of "dom-1" "acc-1" "bob.test")) []
      (some new_account) (some event) hosting hosting-Directory

abbrev raised : Job
raised = normalize_job env (target (keyed_job "job-u" "") (account_of "acc-0" "ada" 4))

update_account_with_job-once_example :
    let m' =
      (update_account_with_job env
        (some (account_of "acc-0" "ada" 4))
        (some (keyed_job "job-u" ""))
        none
        hosting).0 in
    update_account_with_job later
      (some (account_of "acc-0" "eve" 4))
      (some (keyed_job "job-v" ""))
      none
      m'
    ≡ (m', err (stale_account "acc-0"))
unfolding job_replay update_account_with_job update_clash lookup new_memory validate_new_job
    normalize_job
update_account_with_job-once_example =
    update_account_with_job-once env later (account_of "acc-0" "ada" 4) (account_of "acc-0" "eve" 4)
      (keyed_job "job-u" "") (keyed_job "job-v" "") raised none none hosting refl refl refl refl
      refl

create_account_with_job_err_example :
    (create_account_with_job env
      (some (user_of "user-1" "ada"))
      (some (account_of "acc-1" "bob" 1))
      (some (domain_of "dom-1" "acc-1" "bob.test"))
      []
      (some new_account)
      none
      hosting).0
    ≡ hosting
unfolding create_account_with_job new_memory job_replay new_account_ids account_clash lookup
    user_clash find
create_account_with_job_err_example =
    create_account_with_job_err env (some (user_of "user-1" "ada"))
      (some (account_of "acc-1" "bob" 1)) (some (domain_of "dom-1" "acc-1" "bob.test")) []
      (some new_account) none hosting {e = errorf "username %q already exists" ("ada" ∷ [])} refl

update_account_with_job_err_example :
    (update_account_with_job env
      (some (account_of "acc-0" "ada" 9))
      (some (keyed_job "job-u" ""))
      none
      hosting).0
    ≡ hosting
unfolding update_account_with_job job_replay update_clash lookup
update_account_with_job_err_example =
    update_account_with_job_err env (some (account_of "acc-0" "ada" 9))
      (some (keyed_job "job-u" "")) none hosting {e = stale_account "acc-0"} refl

abbrev suspend : Memory → Memory
suspend m = record m { accounts = insert "acc-0" (account_of "acc-0" "ada" 5) m.accounts }

commit_async_mutation-idempotent_example :
    let m' =
      (commit_async_mutation env
        (some (keyed_job "job-1" "key"))
        event
        (λ m. none)
        suspend
        hosting).0 in
    commit_async_mutation later
      (some (keyed_job "job-2" "key"))
      event
      (λ m. some (errorf "no" []))
      (λ m. m)
      m'
    ≡ (m', ok (normalize_job env (keyed_job "job-1" "key")))
unfolding commit_async_mutation job_replay job_with_key find new_memory validate_new_job lookup
    normalize_job
commit_async_mutation-idempotent_example =
    commit_async_mutation-idempotent env later event event (λ m. none) (λ m. some (errorf "no" []))
      suspend (λ m. m) (keyed_job "job-1" "key") (keyed_job "job-2" "key")
      (normalize_job env (keyed_job "job-1" "key")) hosting (λ s. refl)
      (λ e. ground (arith, eq_iff "key" "")) refl refl

commit_async_mutation_err_example :
    (commit_async_mutation env
      (some (keyed_job "job-1" "key"))
      event
      (λ m. some (errorf "no" []))
      suspend
      hosting).0
    ≡ hosting
unfolding commit_async_mutation job_replay job_with_key find new_memory
commit_async_mutation_err_example =
    commit_async_mutation_err env event (λ m. some (errorf "no" [])) suspend
      (some (keyed_job "job-1" "key")) hosting {e = errorf "no" []} refl
