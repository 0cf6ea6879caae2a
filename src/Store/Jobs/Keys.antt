-- ===== src/Store/Jobs/Keys.antt =====
-- The idempotency keys of jobs: EnqueueJob and JobByIdempotencyKey of internal/store/memory.go and
-- EnqueueJobWithAudit of internal/store/resource_atomic.go.
use kelmor.Base.{
  String, ◌≡◌, sym, subst, ◌⊎◌, inl, inr, false, not, ◌&&◌, none, some, [], ◌∷◌, arith, ◌==◌,
  eq_iff, Option-cases, Bool-cases,
}
use kelmor.Base.Table.{Table, Entries, Entries-map, insert, has}
use kelmor.Base.Table.Pairwise.{Pairwise, insert-Pairwise, find-none}
use kelmor.Store.Models.{Job, AuditEvent}
use kelmor.Store.Memory.{Memory}
use kelmor.Store.Op.{Env}
use kelmor.Store.Normal.{normalize_job, job_replay, job_with_key, validate_new_job}
use kelmor.Store.Jobs.{enqueue_job, enqueue_job_with_audit}

-- Two jobs do not share an idempotency key.
abbrev pub OtherKey : Job → Job → Type 0
OtherKey a b = (a.idempotency_key == b.idempotency_key && not (a.idempotency_key == "")) ≡ false

abbrev pub OneJobPerKey : Memory → Type 0
OneJobPerKey m = Pairwise OtherKey m.jobs

OtherKey-sym : (a b : Job) → OtherKey a b → OtherKey b a
OtherKey-sym a b h =
    ground (
      arith,
      eq_iff a.idempotency_key b.idempotency_key,
      eq_iff b.idempotency_key a.idempotency_key,
    )

every_entry :
    (P : String → Job → Type 0) (t : Table Job) → ((k : String) (w : Job) → P k w) → Entries P t
every_entry P [] f = tt
every_entry P ((k, w) ∷ t) f = (f k w, every_entry P t f)

job_replay-OtherKey :
    (j : Job) (m : Memory) → job_replay j m ≡ none → Entries (λ k w. OtherKey w j) m.jobs
unfolding job_replay job_with_key
job_replay-OtherKey j m e = elim (Bool-cases (j.idempotency_key == "")) [
  | inl y ↦ every_entry _ m.jobs (λ k w. ground (
    arith,
    eq_iff w.idempotency_key j.idempotency_key,
    eq_iff j.idempotency_key "",
    eq_iff w.idempotency_key "",
  ))
  | inr n ↦
      Entries-map _ _ m.jobs (λ k w d. ground arith)
        (find-none (λ w. w.idempotency_key == j.idempotency_key) m.jobs (rw n at e))
]

put-OneJobPerKey :
    (env : Env) (j : Job) (m : Memory)
    → job_replay j m ≡ none
    → OneJobPerKey m
    → Pairwise OtherKey (insert (normalize_job env j).id (normalize_job env j) m.jobs)
unfolding normalize_job job_replay
put-OneJobPerKey env j m e h =
    insert-Pairwise OtherKey _ _ m.jobs OtherKey-sym (job_replay-OtherKey (normalize_job env j) m e)
      h

enqueue_job_cases :
    (env : Env) (j : Job) (m : Memory)
    → ((enqueue_job env j m).0 ≡ m)
      ⊎ (job_replay j m ≡ none)
        × ((enqueue_job env j m).0.jobs
            ≡ insert (normalize_job env j).id (normalize_job env j) m.jobs)
unfolding enqueue_job
enqueue_job_cases env j m = elim (Option-cases (job_replay j m)) [
  | inr (r, e) ↦ inl (ground arith)
  | inl e ↦ inr (e, ground arith)
]

enqueue_job_with_audit_cases :
    (env : Env) (j : Job) (audit : AuditEvent) (m : Memory)
    → let m' = (enqueue_job_with_audit env (some j) audit m).0 in
      (m' ≡ m)
      ⊎ (job_replay j m ≡ none)
        × (m'.jobs ≡ insert (normalize_job env j).id (normalize_job env j) m.jobs)
unfolding enqueue_job_with_audit validate_new_job
enqueue_job_with_audit_cases env j audit m = elim (Option-cases (job_replay j m)) [
  | inr (r, e) ↦ inl (ground arith)
  | inl new ↦ elim (Bool-cases (has (normalize_job env j).id m.jobs)) [
    | inl taken ↦ inl (ground arith)
    | inr id ↦ elim (Option-cases (job_replay (normalize_job env j) m)) [
      | inr (r, e) ↦ inl (ground arith)
      | inl key ↦ inr (new, ground arith)
    ]
  ]
]

-- If no two jobs share an idempotency key, none do after EnqueueJob and after EnqueueJobWithAudit,
-- for any job and whatever they return.
pub enqueue_job-OneJobPerKey :
    (env : Env) (j : Job) (audit : AuditEvent) (m : Memory)
    → OneJobPerKey m
    → OneJobPerKey (enqueue_job env j m).0
      × OneJobPerKey (enqueue_job_with_audit env (some j) audit m).0
enqueue_job-OneJobPerKey env j audit m h = (
  elim (enqueue_job_cases env j m) [
    | inl same ↦ subst OneJobPerKey (sym same) h
    | inr (new, put) ↦ rw put (put-OneJobPerKey env j m new h)
  ],
  elim (enqueue_job_with_audit_cases env j audit m) [
    | inl same ↦ subst OneJobPerKey (sym same) h
    | inr (new, put) ↦ rw put (put-OneJobPerKey env j m new h)
  ],
)
