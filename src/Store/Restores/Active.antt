-- ===== src/Store/Restores/Active.antt =====
-- Active restores of an account: activeRestoreLocked, BeginRestore and CreateRestoreWithJob of
-- internal/store/memory.go.
use kelmor.Base.{
  ◌==◌, ◌⊎◌, inl, inr, refl, String, ◌≡◌, sym, subst, false, ◌&&◌, Option, none, some, arith,
  eq_iff, eq→≡, ne→eq_false, ◌≢◌, true, Bool-cases, Option-cases,
}
use kelmor.Base.Table.{Entries, Entries-map, Occurs, insert, has}
use kelmor.Base.Table.Pairwise.{Pairwise, insert-Pairwise, find-none, find-Occurs}
use kelmor.Store.Models.{RestoreJournal, Job, AuditEvent}
use kelmor.Store.Memory.{Memory}
use kelmor.Store.Normal.{validate_new_job, normalize_job, job_replay}
use kelmor.Store.Op.{Env, Result, ok, err, restore_in_progress}
use kelmor.Store.Restores.{
  restore_is_active, is_active_for, active_restore, normalize_restore, with_fence, begin_restore,
  fenced, create_restore_with_job,
}

-- Two journals are not both active for one account.
abbrev pub Apart : RestoreJournal → RestoreJournal → Type 0
Apart a b =
    (a.account_id == b.account_id && (restore_is_active a.state && restore_is_active b.state))
    ≡ false

abbrev pub OneActive : Memory → Type 0
OneActive m = Pairwise Apart m.restores

Apart-sym : (a b : RestoreJournal) → Apart a b → Apart b a
Apart-sym a b r = ground (arith, eq_iff a.account_id b.account_id, eq_iff b.account_id a.account_id)

active_restore-Apart :
    (j : RestoreJournal) (m : Memory)
    → active_restore j.account_id m ≡ none
    → Entries (λ k w. Apart w j) m.restores
unfolding active_restore is_active_for
active_restore-Apart j m e =
    Entries-map _ _ m.restores (λ k w n. ground (arith, eq_iff w.account_id j.account_id))
      (find-none (is_active_for j.account_id) m.restores e)

insert-OneActive :
    (j : RestoreJournal) (m : Memory) (id : String)
    → active_restore j.account_id m ≡ none
    → OneActive m
    → Pairwise Apart (insert id j m.restores)
insert-OneActive j m id e h =
    insert-Pairwise Apart id j m.restores Apart-sym (active_restore-Apart j m e) h

fenced-account_id :
    (env : Env) (j : RestoreJournal) (m : Memory)
    → (fenced (normalize_restore env j) m).account_id ≡ j.account_id
unfolding fenced normalize_restore
fenced-account_id env j m = refl

-- The restores after a journal of an account with no active restore was put in.
begun-OneActive :
    (env : Env) (j : RestoreJournal) (m : Memory) (id : String)
    → active_restore j.account_id m ≡ none
    → OneActive m
    → Pairwise Apart (insert id (fenced (normalize_restore env j) m) m.restores)
begun-OneActive env j m id e h =
    insert-OneActive (fenced (normalize_restore env j) m) m id (rw (fenced-account_id env j m) e) h

begin_restore-restores :
    (env : Env) (j : RestoreJournal) (m : Memory)
    → active_restore j.account_id m ≡ none
    → (begin_restore env (some j) m).0.restores
      ≡ insert
          (fenced (normalize_restore env j) m).id
          (fenced (normalize_restore env j) m)
          m.restores
unfolding begin_restore with_fence
begin_restore-restores env j m e = ground arith

begin_restore_busy :
    (env : Env) (j existing : RestoreJournal) (m : Memory)
    → active_restore j.account_id m ≡ some existing
    → (begin_restore env (some j) m).0 ≡ m
unfolding begin_restore with_fence
begin_restore_busy env j existing m e = ground arith

-- If no account has two active restore journals, none has two after BeginRestore, for any
-- journal and whatever it returns.
pub begin_restore-OneActive :
    (env : Env) (journal : Option RestoreJournal) (m : Memory)
    → OneActive m
    → OneActive (begin_restore env journal m).0
begin_restore-OneActive env none m h = unfold begin_restore in h
begin_restore-OneActive env (some j) m h = elim (Option-cases (active_restore j.account_id m)) [
  | inl e ↦ rw (begin_restore-restores env j m e) (begun-OneActive env j m _ e h)
  | inr (x, e) ↦ subst OneActive (sym (begin_restore_busy env j x m e)) h
]

-- What is returned while a restore is active: that one, if it is of the same backup and the same
-- object, or ErrRestoreInProgress.
pub data Answer (existing j : RestoreJournal) (r : Result RestoreJournal) : Type 0 where
  resumed :
      existing.backup_id ≡ j.backup_id
      → existing.object_key ≡ j.object_key
      → r ≡ ok existing
      → Answer existing j r
  refused :
      (existing.backup_id ≢ j.backup_id) ⊎ (existing.object_key ≢ j.object_key)
      → r ≡ err restore_in_progress
      → Answer existing j r

active_restore-found :
    (k : String) (j existing : RestoreJournal) (m : Memory)
    → OneActive m
    → Occurs k existing m.restores
    → existing.account_id ≡ j.account_id
    → restore_is_active existing.state ≡ true
    → active_restore j.account_id m ≡ some existing
unfolding active_restore is_active_for
active_restore-found k j existing m h o same y =
    find-Occurs Apart (is_active_for j.account_id) k m.restores
      (λ a b r p q. ground (
        arith,
        eq_iff a.account_id j.account_id,
        eq_iff b.account_id j.account_id,
        eq_iff a.account_id b.account_id,
      ))
      h o (ground (arith, eq_iff existing.account_id j.account_id))

begin_restore-Answer :
    (env : Env) (j existing : RestoreJournal) (m : Memory)
    → active_restore j.account_id m ≡ some existing
    → Answer existing j (begin_restore env (some j) m).1
unfolding begin_restore with_fence
begin_restore-Answer env j existing m e = elim (Bool-cases (existing.backup_id == j.backup_id)) [
  | inl b ↦ elim (Bool-cases (existing.object_key == j.object_key)) [
    | inl o ↦
        resumed (eq→≡ existing.backup_id j.backup_id b) (eq→≡ existing.object_key j.object_key o)
          (ground arith)
    | inr o ↦
        refused (inr (λ w. ground (arith, (eq_iff existing.object_key j.object_key).1 w)))
          (ground arith)
  ]
  | inr b ↦
      refused (inl (λ w. ground (arith, (eq_iff existing.backup_id j.backup_id).1 w)))
        (ground arith)
]

-- Let no account have two active restore journals, and let a stored journal be of the new one's
-- account and in a state that is not empty, complete or failed. Then BeginRestore changes nothing.
-- It returns the stored journal if that is of the same backup and object, and ErrRestoreInProgress
-- if it is of another backup or of another object.
pub begin_restore_active :
    (env : Env) (k : String) (j existing : RestoreJournal) (m : Memory)
    → OneActive m
    → Occurs k existing m.restores
    → existing.account_id ≡ j.account_id
    → existing.state ≢ ""
    → existing.state ≢ "complete"
    → existing.state ≢ "failed"
    → ((begin_restore env (some j) m).0 ≡ m) × Answer existing j (begin_restore env (some j) m).1
unfolding restore_is_active
begin_restore_active env k j existing m h o same begun unfinished running =
    (begin_restore_busy env j existing m found, begin_restore-Answer env j existing m found)
  where
    found : active_restore j.account_id m ≡ some existing
    found = active_restore-found k j existing m h o same (
        rw
          (
            ne→eq_false existing.state "" begun,
            ne→eq_false existing.state "complete" unfinished,
            ne→eq_false existing.state "failed" running,
          )
          refl)

create_restore_with_job_cases :
    (env : Env) (j : RestoreJournal) (job : Job) (audit : AuditEvent) (m : Memory)
    → let m' = (create_restore_with_job env (some j) (some job) audit m).0 in
      (m' ≡ m)
      ⊎ (active_restore j.account_id m ≡ none)
        × (m'.restores
            ≡ insert
                (fenced (normalize_restore env j) m).id
                (fenced (normalize_restore env j) m)
                m.restores)
unfolding create_restore_with_job with_fence fenced validate_new_job
create_restore_with_job_cases env j job audit m = elim (Option-cases (job_replay job m)) [
  | inr (r, e) ↦ inl (ground arith)
  | inl new ↦ elim (Option-cases (active_restore j.account_id m)) [
    | inr (x, e) ↦ inl (ground arith)
    | inl idle ↦ elim (Bool-cases (has (normalize_job env job).id m.jobs)) [
      | inl taken ↦ inl (ground arith)
      | inr free ↦ elim (Option-cases (job_replay (normalize_job env job) m)) [
        | inr (r, e) ↦ inl (ground arith)
        | inl key ↦ inr (idle, ground arith)
      ]
    ]
  ]
]

-- If no account has two active restore journals, none has two after CreateRestoreWithJob, for
-- any journal and job and whatever it returns.
pub create_restore_with_job-OneActive :
    (env : Env) (journal : Option RestoreJournal) (job : Option Job) (audit : AuditEvent)
    (m : Memory)
    → OneActive m
    → OneActive (create_restore_with_job env journal job audit m).0
create_restore_with_job-OneActive env none job audit m h = unfold create_restore_with_job in h
create_restore_with_job-OneActive env (some j) none audit m h = unfold create_restore_with_job in h
create_restore_with_job-OneActive env (some j) (some job) audit m h =
    elim (create_restore_with_job_cases env j job audit m) [
      | inl same ↦ subst OneActive (sym same) h
      | inr (idle, put) ↦ rw put (begun-OneActive env j m _ idle h)
    ]
