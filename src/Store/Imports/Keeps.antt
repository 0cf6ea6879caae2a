-- ===== src/Store/Imports/Keeps.antt =====
-- What importAccountWithJob (internal/store/import_atomic.go) leaves of the rows that were there.
use kelmor.Base.{
  ℕ, slt, add64, false, ◌≡◌, refl, sym, inl, inr, Option, none, some, arith, Bool-cases,
  Option-cases, is_some, if◌then◌else◌, subst,
}
use kelmor.Base.Table.{has}
use kelmor.Store.Models.{Account, Job, AuditEvent}
use kelmor.Store.Memory.{Memory}
use kelmor.Store.Op.{
  Env, StoreError, Result, ok, err, Outcome, next, returned, ◌>>=◌, ◌>>◌, resume, pure, modify,
  close,
}
use kelmor.Store.Normal.{normalize_job, job_replay, validate_new_job, put_job, with_audit}
use kelmor.Store.Accounts.{target, assign_uid, with_uid}
use kelmor.Store.Imports.{
  AccountImport, KeptRows, insert_import, import_rows, import_account_clash,
  import_account_with_job,
}
use kelmor.Store.Imports.Loops.{Only}
use kelmor.Store.Imports.Checks.{Checked, import_rows-Checked}
use kelmor.Store.Imports.Additions.{Extended, with_audit-Extended, insert_import-Extended}

-- A call that has returned early has changed nothing.
abbrev pub Extending : Memory → Memory × Outcome Job Job → Type 0
Extending m (s, next a) = Extended m s
Extending m (s, returned r) = s ≡ m

with_uid-id : (a : Account) (m : Memory) → (with_uid a m).id ≡ a.id
unfolding with_uid
with_uid-id a m = ground arith

abbrev next_free : Account → Memory → ℕ
next_free a m = if slt a.linux_uid 20000 then add64 m.next_uid 1 else m.next_uid

-- The call from the loops on: what each statement has found is given.
last_steps :
    (env : Env) (i : AccountImport) (k : KeptRows) (job : Job) (audit : Option AuditEvent)
    (m : Memory)
    → has i.account.id m.accounts ≡ false
    → Checked i m k
    → Extending m (
        (validate_new_job job
            >> (assign_uid i.account >>= λ account.
                modify (insert_import i account k)
                >> modify (put_job job)
                >> modify (with_audit env job audit)
                >> pure job))
          m)
unfolding validate_new_job assign_uid
last_steps env i k job audit m new c = elim (Bool-cases (has job.id m.jobs)) [
  | inl taken ↦ rw taken refl
  | inr free ↦ elim (Bool-cases (is_some (job_replay job m))) [
    | inl seen ↦ rw (free, seen) refl
    | inr unseen ↦
        rw (free, unseen)
          (with_audit-Extended env job audit m
            (put_job job (
              insert_import i (with_uid i.account m) k
                (record m { next_uid = next_free i.account m })))
            (insert_import-Extended i (with_uid i.account m) k job (next_free i.account m) m
              (rw (with_uid-id i.account m) new) free c))
  ]
]

-- The call, from the store `m` that it finds.
steps :
    (env : Env) (i : AccountImport) (job : Job) (audit : Option AuditEvent) (m : Memory)
    → has i.account.id m.accounts ≡ false
    → Extending m (
        (import_rows i m >>= λ rows.
        validate_new_job (normalize_job env (target job i.account))
        >> (assign_uid i.account >>= λ account.
            modify (insert_import i account rows)
            >> modify (put_job (normalize_job env (target job i.account)))
            >> modify (with_audit env (normalize_job env (target job i.account)) audit)
            >> pure (normalize_job env (target job i.account))))
          m)
steps env i job audit m new = after (import_rows i m m) (import_rows-Checked Job i m m)
  where
    after :
        (x : Memory × Outcome KeptRows Job)
        → Only m (Checked i m) x
        → Extending m (
            resume x (λ rows.
              validate_new_job (normalize_job env (target job i.account))
              >> (assign_uid i.account >>= λ account.
                  modify (insert_import i account rows)
                  >> modify (put_job (normalize_job env (target job i.account)))
                  >> modify (with_audit env (normalize_job env (target job i.account)) audit)
                  >> pure (normalize_job env (target job i.account)))))
    after (s, next k) p =
        subst
          (λ (u : Memory). Extending m (
            (validate_new_job (normalize_job env (target job i.account))
                >> (assign_uid i.account >>= λ account.
                    modify (insert_import i account k)
                    >> modify (put_job (normalize_job env (target job i.account)))
                    >> modify (with_audit env (normalize_job env (target job i.account)) audit)
                    >> pure (normalize_job env (target job i.account))))
              u))
          (sym p.0) (last_steps env i k (normalize_job env (target job i.account)) audit m new p.1)
    after (s, returned (ok r)) p = absurd p
    after (s, returned (err e)) p = p

import_account_clash-none :
    (a : Account) (m : Memory) → import_account_clash a m ≡ none → has a.id m.accounts ≡ false
unfolding import_account_clash
import_account_clash-none a m h = ground arith

refl-Extended : (m : Memory) → Extended m m
refl-Extended m = record {
  accounts = λ k v h. h;
  domains = λ k v h. h;
  websites = λ k v h. h;
  apps = λ k v h. h;
  dbs = λ k v h. h;
  db_users = λ k v h. h;
  mail_dom = λ k v h. h;
  mailboxes = λ k v h. h;
  aliases = λ k v h. h;
  zones = λ k v h. h;
  records = λ k v h. h;
  crons = λ k v h. h;
  ssh_keys = λ k v h. h;
  ftps = λ k v h. h;
  jobs = λ k v h. h;
  users = refl;
}

-- What is said of a call, by how it ended.
abbrev Left : Memory → Memory × Result Job → Type 0
Left m (s, ok j) = Extended m s
Left m (s, err e) = s ≡ m

Extending-Left :
    (m : Memory) (x : Memory × Outcome Job Job) → Extending m x → Left m (x.0, close x.1)
Extending-Left m (s, next a) h = h
Extending-Left m (s, returned (ok r)) h =
    subst (λ (u : Memory). Extended m u) (sym h) (refl-Extended m)
Extending-Left m (s, returned (err e)) h = h

import-Left :
    (env : Env) (imported : Option AccountImport) (job : Option Job) (audit : Option AuditEvent)
    (m : Memory)
    → Left m (import_account_with_job env imported job audit m)
unfolding import_account_with_job
import-Left env none job audit m = refl
import-Left env (some i) none audit m = refl
import-Left env (some i) (some job) audit m =
    elim (Option-cases (import_account_clash i.account m)) [
      | inr (e, clash) ↦ rw clash refl
      | inl free ↦ elim (Option-cases (job_replay job m)) [
        | inr (j, seen) ↦ rw (free, seen) (refl-Extended m)
        | inl unseen ↦
            rw (free, unseen)
              (Extending-Left m _
                (steps env i job audit m (import_account_clash-none i.account m free)))
      ]
    ]

-- An import of an account never changes or loses a row that was there: no account, domain, website,
-- application, database, database user, mail domain, mailbox, alias, zone, record, cron job, SSH key,
-- FTP account or job, and no user at all.
pub import_account_with_job-Extended :
    (env : Env) (imported : Option AccountImport) (job : Option Job) (audit : Option AuditEvent)
    (m : Memory)
    → Extended m ((import_account_with_job env imported job audit m).0)
import_account_with_job-Extended env imported job audit m =
    either (import_account_with_job env imported job audit m) (import-Left env imported job audit m)
  where
    either : (x : Memory × Result Job) → Left m x → Extended m (x.0)
    either (s, ok j) h = h
    either (s, err e) h = subst (λ (u : Memory). Extended m u) (sym h) (refl-Extended m)

-- If an import of an account returns an error, the store is what it was before the call.
pub import_account_with_job_err :
    (env : Env) (imported : Option AccountImport) (job : Option Job) (audit : Option AuditEvent)
    (m : Memory) {e : StoreError}
    → (import_account_with_job env imported job audit m).1 ≡ err e
    → (import_account_with_job env imported job audit m).0 ≡ m
import_account_with_job_err env imported job audit m =
    either (import_account_with_job env imported job audit m) (import-Left env imported job audit m)
  where
    either : (x : Memory × Result Job) → Left m x → {e : StoreError} → x.1 ≡ err e → x.0 ≡ m
    either (s, ok j) h q = cc
    either (s, err e) h q = h
