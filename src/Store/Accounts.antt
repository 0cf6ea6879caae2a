-- ===== src/Store/Accounts.antt =====
-- Accounts and the jobs that provision them: AllocUID, CreateAccountWithJob and
-- UpdateAccountWithJob of internal/store/memory.go, with and without an audit event.
pub mod Atomic
pub mod Revision
pub mod Directory
use kelmor.Base.{
  ℕ, String, Bool, not, ◌&&◌, ◌||◌, Option, none, some, List, [], ◌∷◌, ◌==◌, nat_eq, if◌then◌else◌,
  is_some, add64, slt,
}
use kelmor.Base.Table.{lookup, insert, find, has}
use kelmor.Store.Models.{User, Account, Domain, Job, AuditEvent}
use kelmor.Store.Memory.{Memory}
use kelmor.Store.Members.{unique}
use kelmor.Store.Normal.{or_zero, normalize_job, job_replay, validate_new_job, put_job, with_audit}
use kelmor.Store.Op.{
  StoreError, stale_account, errorf, Result, Env, Op, next, ◌>>=◌, ◌>>◌, pure, get, modify, refuse,
  refuse_some, given, reply, run,
}

unfoldable pub alloc_uid : Memory → Memory × ℕ
alloc_uid m = (record m { next_uid = add64 m.next_uid 1 }, m.next_uid)

-- A uid below 20000 is replaced by the next free one.
unfoldable pub with_uid : Account → Memory → Account
with_uid account m =
    if slt account.linux_uid 20000
    then record account { linux_uid = m.next_uid; linux_gid = m.next_uid }
    else account

unfoldable pub assign_uid : {R : Type 0} → Account → Op R Account
assign_uid account m = (
  record m { next_uid = if slt account.linux_uid 20000 then add64 m.next_uid 1 else m.next_uid },
  next (with_uid account m),
)

-- The first user met with the owner's name or address.
unfoldable pub user_clash : User → Memory → Option StoreError
user_clash owner m =
    elim (find (λ u. u.username == owner.username || u.email == owner.email) m.users) [
      | none ↦ none
      | some u ↦ some (
          if u.username == owner.username
          then errorf "username %q already exists" (owner.username ∷ [])
          else errorf "email %q already exists" (owner.email ∷ []))
    ]

-- The first member that is neither the owner nor a user.
unfoldable pub missing_member : String → Memory → List String → Option StoreError
missing_member owner_id m [] = none
missing_member owner_id m (u ∷ us) =
    let rest = missing_member owner_id m us in
    if u == "" || (not (u == owner_id) && not (has u m.users))
    then some (errorf "member user %q not found" (u ∷ []))
    else rest

abbrev pub target : Job → Account → Job
target job account = record job {
  target_revision = or_zero job.target_revision account.desired_revision;
}

-- What a new account must be, apart from the store: the ids fit together.
unfoldable pub new_account_ids : User → Account → Domain → Job → Option StoreError
new_account_ids owner account domain job =
    if owner.id == "" || (account.id == "" || domain.id == "")
    then some (errorf "owner, account, and domain IDs are required" [])
    else if not (account.owner_user_id == owner.id)
    then some
        (errorf "account owner %q does not match user %q" (account.owner_user_id ∷ owner.id ∷ []))
    else if not (domain.account_id == account.id)
    then some
        (errorf "domain account %q does not match account %q" (domain.account_id ∷ account.id ∷ []))
    else if not (job.resource_id == "") && not (job.resource_id == account.id)
    then some
        (errorf "job resource %q does not match account %q" (job.resource_id ∷ account.id ∷ []))
    else none

-- What the store must know and must not know of a new account.
unfoldable pub account_clash : User → Account → Domain → List String → Memory → Option StoreError
account_clash owner account domain members m =
    if not (has account.package_id m.packages)
    then some (errorf "package %q not found" (account.package_id ∷ []))
    else if not (account.reseller_id == "") && not (has account.reseller_id m.resellers)
    then some (errorf "reseller %q not found" (account.reseller_id ∷ []))
    else if has owner.id m.users
    then some (errorf "user %q already exists" (owner.id ∷ []))
    else if is_some (user_clash owner m)
    then user_clash owner m
    else if has account.id m.accounts
    then some (errorf "account %q already exists" (account.id ∷ []))
    else if is_some (find (λ a. a.username == account.username) m.accounts)
    then some (errorf "account username %q already exists" (account.username ∷ []))
    else if has domain.id m.domains
    then some (errorf "domain %q already exists" (domain.id ∷ []))
    else if is_some (find (λ d. d.ascii == domain.ascii) m.domains)
    then some (errorf "domain %q already exists" (domain.ascii ∷ []))
    else missing_member owner.id m members

abbrev pub insert_account : User → Account → Domain → List String → Memory → Memory
insert_account owner account domain members m = record m {
  users = insert owner.id owner m.users;
  accounts = insert account.id account m.accounts;
  members = insert account.id (unique members) m.members;
  domains = insert domain.id domain m.domains;
}

unfoldable pub create_account_with_job :
    Env
    → Option User
    → Option Account
    → Option Domain
    → List String
    → Option Job
    → Option AuditEvent
    → Memory
    → Memory × Result Job
create_account_with_job env owner? account? domain? members job? audit = run do
  owner ← given owner? (errorf "owner, account, domain, and job are required" [])
  account ← given account? (errorf "owner, account, domain, and job are required" [])
  domain ← given domain? (errorf "owner, account, domain, and job are required" [])
  job ← given job? (errorf "owner, account, domain, and job are required" [])
  refuse_some (new_account_ids owner account domain job)
  m ← get
  reply (job_replay job m)
  refuse_some (account_clash owner account domain members m)
  let job' = normalize_job env (target job account)
  validate_new_job job'
  account' ← assign_uid account
  modify (insert_account owner account' domain members)
  modify (put_job job')
  modify (with_audit env job' audit)
  pure job'

-- What an update of an account needs of the store, the revision it replaces included.
unfoldable pub update_clash : Account → Job → Memory → Option StoreError
update_clash account job m = elim (lookup account.id m.accounts) [
  | none ↦ some (errorf "account %q not found" (account.id ∷ []))
  | some current ↦
      if account.id == ""
      then some (errorf "account %q not found" (account.id ∷ []))
      else if not (nat_eq account.desired_revision (add64 current.desired_revision 1))
      then some (stale_account account.id)
      else if not (job.resource_id == "") && not (job.resource_id == account.id)
      then some
          (errorf "job resource %q does not match account %q" (job.resource_id ∷ account.id ∷ []))
      else if not (has account.package_id m.packages)
      then some (errorf "package %q not found" (account.package_id ∷ []))
      else if not (account.reseller_id == "") && not (has account.reseller_id m.resellers)
      then some (errorf "reseller %q not found" (account.reseller_id ∷ []))
      else none
]

unfoldable pub update_account_with_job :
    Env → Option Account → Option Job → Option AuditEvent → Memory → Memory × Result Job
update_account_with_job env account? job? audit = run do
  account ← given account? (errorf "account and job are required" [])
  job ← given job? (errorf "account and job are required" [])
  m ← get
  reply (job_replay job m)
  refuse_some (update_clash account job m)
  let job' = normalize_job env (target job account)
  validate_new_job job'
  modify (λ s. record s { accounts = insert account.id account s.accounts })
  modify (put_job job')
  modify (with_audit env job' audit)
  pure job'
