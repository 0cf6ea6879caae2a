-- ===== src/Store/Resources/Retry.antt =====
-- A retried CreateDomainWithJob (internal/store/resource_atomic.go).
use kelmor.Base.{◌≡◌, refl, true, none, some, [], ◌∷◌, arith, eq_refl}
use kelmor.Base.Table.{insert, has, lookup-insert}
use kelmor.Store.Models.{Domain, Job, AuditEvent}
use kelmor.Store.Memory.{Memory}
use kelmor.Store.Op.{Env, ok, err, errorf}
use kelmor.Store.Normal.{job_replay, validate_new_job}
use kelmor.Store.Resources.{create_domain_with_job, commit_domain_mutation, commit_with}

create_domain_with_job_ok :
    (env : Env) (domain : Domain) (job j : Job) (audit : AuditEvent) (m : Memory)
    → let m' = (create_domain_with_job env (some domain) (some job) audit m).0 in
      job_replay job m ≡ none
      → (create_domain_with_job env (some domain) (some job) audit m).1 ≡ ok j
      → (m'.domains ≡ insert domain.id domain m.domains)
        × (m'.accounts ≡ m.accounts)
        × (has domain.account_id m.accounts ≡ true)
unfolding create_domain_with_job commit_domain_mutation commit_with validate_new_job
create_domain_with_job_ok env domain job j audit m new h =
    (ground arith, ground arith, ground arith)

create_domain_with_job_taken :
    (env : Env) (domain : Domain) (job : Job) (audit : AuditEvent) (m : Memory)
    → has domain.account_id m.accounts ≡ true
    → has domain.id m.domains ≡ true
    → create_domain_with_job env (some domain) (some job) audit m
      ≡ (m, err (errorf "domain %q already exists" (domain.id ∷ [])))
unfolding create_domain_with_job
create_domain_with_job_taken env domain job audit m a d = ground arith

-- After CreateDomainWithJob has stored a domain for a job that is no replay, the same call made
-- again is refused, since the domain exists, even where the job has an idempotency key; the store
-- stays as it was.
pub create_domain_with_job-retry :
    (env env' : Env) (domain : Domain) (job j : Job) (audit : AuditEvent) (m : Memory)
    → job_replay job m ≡ none
    → (create_domain_with_job env (some domain) (some job) audit m).1 ≡ ok j
    → let m' = (create_domain_with_job env (some domain) (some job) audit m).0 in
      create_domain_with_job env' (some domain) (some job) audit m'
      ≡ (m', err (errorf "domain %q already exists" (domain.id ∷ [])))
create_domain_with_job-retry env env' domain job j audit m new h =
    let made = create_domain_with_job_ok env domain job j audit m new h in
    create_domain_with_job_taken env' domain job audit _ (rw made.1 made.2)
      (rw (made.0, lookup-insert, eq_refl domain.id) refl)
