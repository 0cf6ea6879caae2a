-- ===== src/Store/Accounts/Atomic.antt =====
-- The ways out of createAccountWithJob and updateAccountWithJob (internal/store/memory.go).
use kelmor.Base.{
  String, ◌≡◌, ◌⊎◌, inl, inr, Option, List, some, none, arith, Option-cases, Bool-cases,
}
use kelmor.Base.Table.{insert, has}
use kelmor.Store.Models.{User, Account, Domain, Job, AuditEvent}
use kelmor.Store.Memory.{Memory}
use kelmor.Store.Op.{Env, StoreError, err}
use kelmor.Store.Normal.{normalize_job, job_replay, validate_new_job}
use kelmor.Store.Accounts.{
  create_account_with_job, update_account_with_job, assign_uid, with_uid, new_account_ids,
  account_clash, target,
}

-- If CreateAccountWithJob returns an error, the store is what it was before the call.
pub create_account_with_job_err :
    (env : Env) (owner : Option User) (account : Option Account) (domain : Option Domain)
    (members : List String) (job : Option Job) (audit : Option AuditEvent) (m : Memory)
    {e : StoreError}
    → (create_account_with_job env owner account domain members job audit m).1 ≡ err e
    → (create_account_with_job env owner account domain members job audit m).0 ≡ m
unfolding create_account_with_job validate_new_job assign_uid
create_account_with_job_err env owner account domain members job audit m h = ground arith

-- If UpdateAccountWithJob returns an error, the store is what it was before the call.
pub update_account_with_job_err :
    (env : Env) (account : Option Account) (job : Option Job) (audit : Option AuditEvent)
    (m : Memory) {e : StoreError}
    → (update_account_with_job env account job audit m).1 ≡ err e
    → (update_account_with_job env account job audit m).0 ≡ m
unfolding update_account_with_job validate_new_job
update_account_with_job_err env account job audit m h = ground arith

-- The store after an account was created.
pub record Created (env : Env) (owner : User) (account : Account) (domain : Domain)
    (members : List String) (job : Job) (m m' : Memory) : Type 0 where
  pub ids : new_account_ids owner account domain job ≡ none
  pub free : account_clash owner account domain members m ≡ none
  pub new_key : job_replay (normalize_job env (target job account)) m ≡ none
  pub users : m'.users ≡ insert owner.id owner m.users
  pub accounts : m'.accounts ≡ insert account.id (with_uid account m) m.accounts
  pub domains : m'.domains ≡ insert domain.id domain m.domains
  pub jobs :
      m'.jobs
      ≡ insert
          (normalize_job env (target job account)).id
          (normalize_job env (target job account))
          m.jobs

pub create_account_with_job_cases :
    (env : Env) (owner : User) (account : Account) (domain : Domain) (members : List String)
    (job : Job) (audit : Option AuditEvent) (m : Memory)
    → let m' =
        (create_account_with_job env
          (some owner)
          (some account)
          (some domain)
          members
          (some job)
          audit
          m).0 in
      (m' ≡ m) ⊎ Created env owner account domain members job m m'
unfolding create_account_with_job validate_new_job assign_uid with_uid
create_account_with_job_cases env owner account domain members job audit m =
    elim (Option-cases (new_account_ids owner account domain job)) [
      | inr (e, bad) ↦ inl (ground arith)
      | inl ids ↦ elim (Option-cases (job_replay job m)) [
        | inr (r, seen) ↦ inl (ground arith)
        | inl unseen ↦ elim (Option-cases (account_clash owner account domain members m)) [
          | inr (e, clash) ↦ inl (ground arith)
          | inl free ↦ elim (Bool-cases (has (normalize_job env (target job account)).id m.jobs)) [
            | inl taken ↦ inl (ground arith)
            | inr new ↦
                elim (Option-cases (job_replay (normalize_job env (target job account)) m)) [
                  | inr (r, seen) ↦ inl (ground arith)
                  | inl key ↦ inr (record {
                    ids = ids;
                    free = free;
                    new_key = key;
                    users = ground arith;
                    accounts = ground arith;
                    domains = ground arith;
                    jobs = ground arith;
                  })
                ]
          ]
        ]
      ]
    ]
