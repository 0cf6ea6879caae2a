-- ===== src/Store/Commit/Replay.antt =====
-- Failures and replays of commitAsyncMutationLocked (internal/store/async_atomic.go).
use kelmor.Base.{
  ◌≡◌, ◌≢◌, refl, sym, ap, ◌∙◌, false, Option, none, some, [], ◌∷◌, ◌++◌, arith, ◌==◌, ne→eq_false,
  eq_refl, Option-cases, inl, inr,
}
use kelmor.Base.Table.{insert, has}
use kelmor.Base.Table.Pairwise.{find-insert}
use kelmor.Store.Models.{Job, AuditEvent}
use kelmor.Store.Memory.{Memory}
use kelmor.Store.Normal.{normalize_job, normalize_audit, job_replay, job_with_key, validate_new_job}
use kelmor.Store.Op.{StoreError, Env, ok, err}
use kelmor.Store.Commit.{commit_async_mutation}

module _ (env : Env) (audit : AuditEvent) (validate : Memory → Option StoreError)
    (mutate : Memory → Memory) where
  -- If a commit of a resource with its job returns an error, the store is what it was before
  -- the call.
  pub commit_async_mutation_err :
      (job : Option Job) (m : Memory) {e : StoreError}
      → (commit_async_mutation env job audit validate mutate m).1 ≡ err e
      → (commit_async_mutation env job audit validate mutate m).0 ≡ m
  unfolding commit_async_mutation validate_new_job
  commit_async_mutation_err job m h = ground arith

  -- A job whose key is known is answered by the job that has it, and nothing changes.
  pub commit_async_mutation_replay :
      (job r : Job) (m : Memory)
      → job_replay job m ≡ some r
      → commit_async_mutation env (some job) audit validate mutate m ≡ (m, ok r)
  unfolding commit_async_mutation
  commit_async_mutation_replay job r m h = ground arith

  -- What a commit of a new key leaves.
  pub record Committed (job : Job) (m m' : Memory) (j : Job) : Type 0 where
    pub job_is : j ≡ normalize_job env job
    pub valid : validate m ≡ none
    pub new_id : has j.id m.jobs ≡ false
    pub jobs : m'.jobs ≡ insert j.id j (mutate m).jobs
    pub event : m'.audit ≡ (mutate m).audit ++ (normalize_audit env j audit ∷ [])

  pub commit_async_mutation_ok :
      (job : Job) (m : Memory) (j : Job)
      → job_replay job m ≡ none
      → (commit_async_mutation env (some job) audit validate mutate m).1 ≡ ok j
      → Committed job m (commit_async_mutation env (some job) audit validate mutate m).0 j
  unfolding commit_async_mutation validate_new_job
  commit_async_mutation_ok job m j new h = record {
    job_is = ground arith;
    valid = ground arith;
    new_id = ground arith;
    jobs = ground arith;
    event = ground arith;
  }

-- The search for a key that a new job was just stored with finds that job.
job_replay-insert :
    (job2 j : Job) (m m' : Memory)
    → m'.jobs ≡ insert j.id j m.jobs
    → job2.idempotency_key ≡ j.idempotency_key
    → j.idempotency_key ≢ ""
    → job_replay j m ≡ none
    → job_replay job2 m' ≡ some j
unfolding job_replay job_with_key
job_replay-insert job2 j m m' e same key new =
    rw (same, ne→eq_false j.idempotency_key "" key, e)
      (find-insert (λ w. w.idempotency_key == j.idempotency_key) j.id j m.jobs
        (rw (ne→eq_false j.idempotency_key "" key) at new) (eq_refl j.idempotency_key))

job_replay-key :
    (a b : Job) (m : Memory)
    → a.idempotency_key ≡ b.idempotency_key
    → job_replay a m ≡ job_replay b m
unfolding job_replay
job_replay-key a b m e = rw e

normalize_job-key :
    (env : Env) (j : Job) → (normalize_job env j).idempotency_key ≡ j.idempotency_key
unfolding normalize_job
normalize_job-key env j = refl

-- After a commit of a job with an idempotency key has returned a job, a commit of any job with
-- that key returns the same job and changes nothing, whatever its check, its change and its
-- audit event are. The first commit's change leaves the jobs alone.
pub commit_async_mutation-idempotent :
    (env env2 : Env) (audit audit2 : AuditEvent) (validate validate2 : Memory → Option StoreError)
    (mutate mutate2 : Memory → Memory) (job job2 j : Job) (m : Memory)
    → ((s : Memory) → (mutate s).jobs ≡ s.jobs)
    → job.idempotency_key ≢ ""
    → job2.idempotency_key ≡ job.idempotency_key
    → (commit_async_mutation env (some job) audit validate mutate m).1 ≡ ok j
    → let m' = (commit_async_mutation env (some job) audit validate mutate m).0 in
      commit_async_mutation env2 (some job2) audit2 validate2 mutate2 m' ≡ (m', ok j)
commit_async_mutation-idempotent env env2 audit audit2 validate validate2 mutate mutate2 job job2 j
      m keep key same h =
    elim (Option-cases (job_replay job m)) [
      | inr (r, seen) ↦
          let first = commit_async_mutation_replay env audit validate mutate job r m seen in
          let again =
            commit_async_mutation_replay env2 audit2 validate2 mutate2 job2 r m
              (job_replay-key job2 job m same ∙ seen) in
          rw first (again ∙ ap (λ a. (m, a)) (sym (ap (λ a. a.1) first) ∙ h))
      | inl new ↦
          let c = commit_async_mutation_ok env audit validate mutate job m j new h in
          let own : j.idempotency_key ≡ job.idempotency_key =
            ap (λ a. a.idempotency_key) c.job_is ∙ normalize_job-key env job in
          commit_async_mutation_replay env2 audit2 validate2 mutate2 job2 j _ (
            job_replay-insert job2 j m _ (c.jobs ∙ ap (insert j.id j) (keep m)) (same ∙ sym own)
              (λ e. key (sym own ∙ e)) (job_replay-key j job m own ∙ new))
    ]
