-- ===== src/Store/Accounts/Directory.antt =====
-- The names and addresses that createAccountWithJob of internal/store/memory.go looks for.
use kelmor.Base.{
  String, ◌≡◌, sym, ◌≢◌, inl, inr, false, ◌||◌, Option, List, some, none, arith, ◌==◌, eq_iff,
  subst,
}
use kelmor.Base.Table.{Table, Entries, Entries-map, insert, find}
use kelmor.Base.Table.Pairwise.{Pairwise, insert-Pairwise, find-none}
use kelmor.Store.Models.{User, Account, Domain, Job, AuditEvent}
use kelmor.Store.Memory.{Memory}
use kelmor.Store.Op.{Env}
use kelmor.Store.Accounts.{create_account_with_job, with_uid, account_clash, user_clash}
use kelmor.Store.Accounts.Atomic.{Created, create_account_with_job_cases}

-- Two rows with different keys in a text column.
abbrev pub Differ {ℓ} : {V : Type ℓ} → (V → String) → V → V → Type 0
Differ f a b = f a ≢ f b

pub record Directory (m : Memory) : Type 0 where
  pub usernames : Pairwise (Differ (λ u. u.username)) m.users
  pub emails : Pairwise (Differ (λ u. u.email)) m.users
  pub account_names : Pairwise (Differ (λ a. a.username)) m.accounts
  pub hostnames : Pairwise (Differ (λ d. d.ascii)) m.domains

ne_of_eq_false : (s t : String) → (s == t) ≡ false → s ≢ t
ne_of_eq_false s t h e = ground (arith, eq_iff s t)

-- A row whose key a search did not find may be put in.
pub insert-Differ {ℓ} :
    {V : Type ℓ} (f : V → String) (k : String) (v : V) (t : Table V)
    → Entries (λ j w. (f w == f v) ≡ false) t
    → Pairwise (Differ f) t
    → Pairwise (Differ f) (insert k v t)
insert-Differ f k v t h =
    insert-Pairwise (Differ f) k v t (λ a b r e. r (sym e))
      (Entries-map _ _ t (λ j w n. ne_of_eq_false (f w) (f v) n) h)

account_clash-none :
    (owner : User) (account : Account) (domain : Domain) (members : List String) (m : Memory)
    → account_clash owner account domain members m ≡ none
    → (user_clash owner m ≡ none)
      × (find (λ a. a.username == account.username) m.accounts ≡ none)
      × (find (λ d. d.ascii == domain.ascii) m.domains ≡ none)
unfolding account_clash
account_clash-none owner account domain members m e = ground arith

user_clash-none :
    (owner : User) (m : Memory)
    → user_clash owner m ≡ none
    → find (λ u. u.username == owner.username || u.email == owner.email) m.users ≡ none
unfolding user_clash
user_clash-none owner m e = ground arith

with_uid-username :
    (account : Account) (m : Memory) → (with_uid account m).username ≡ account.username
unfolding with_uid
with_uid-username account m = ground arith

Created-Directory :
    {env : Env} {owner : User} {account : Account} {domain : Domain} {members : List String}
    {job : Job} {m m' : Memory}
    → Created env owner account domain members job m m'
    → Directory m
    → Directory m'
Created-Directory {owner = owner} {account = account} {domain = domain} {members = members} {m = m}
      c d =
    record {
      usernames = rw c.users (
          insert-Differ (λ u. u.username) owner.id owner m.users
            (Entries-map _ _ m.users (λ k u n. ground arith) users) d.usernames);
      emails = rw c.users (
          insert-Differ (λ u. u.email) owner.id owner m.users
            (Entries-map _ _ m.users (λ k u n. ground arith) users) d.emails);
      account_names = rw c.accounts (
          insert-Differ (λ a. a.username) account.id (with_uid account m) m.accounts
            (subst (λ s. Entries (λ k a. (a.username == s) ≡ false) m.accounts)
              (sym (with_uid-username account m)) (find-none _ m.accounts free.1))
            d.account_names);
      hostnames = rw c.domains (
          insert-Differ (λ a. a.ascii) domain.id domain m.domains (find-none _ m.domains free.2)
            d.hostnames);
    }
  where
    free :
        (user_clash owner m ≡ none)
        × (find (λ a. a.username == account.username) m.accounts ≡ none)
        × (find (λ d. d.ascii == domain.ascii) m.domains ≡ none)
    free = account_clash-none owner account domain members m c.free

    users :
        Entries (λ k u. (u.username == owner.username || u.email == owner.email) ≡ false) m.users
    users = find-none _ m.users (user_clash-none owner m free.0)

-- If no two users share a name or an address, no two accounts a user name and no two domains
-- an ASCII form, the same holds after CreateAccountWithJob, for any arguments and whatever it
-- returns.
pub create_account_with_job-Directory :
    (env : Env) (owner : Option User) (account : Option Account) (domain : Option Domain)
    (members : List String) (job : Option Job) (audit : Option AuditEvent) (m : Memory)
    → Directory m
    → Directory (create_account_with_job env owner account domain members job audit m).0
unfolding create_account_with_job
create_account_with_job-Directory env none account domain members job audit m d = d
create_account_with_job-Directory env (some owner) none domain members job audit m d = d
create_account_with_job-Directory env (some owner) (some account) none members job audit m d = d
create_account_with_job-Directory env (some owner) (some account) (some domain) members none audit m
      d =
    d
create_account_with_job-Directory env (some owner) (some account) (some domain) members (some job)
      audit m d =
    elim (create_account_with_job_cases env owner account domain members job audit m) [
      | inl same ↦ subst Directory (sym same) d
      | inr made ↦ Created-Directory made d
    ]
