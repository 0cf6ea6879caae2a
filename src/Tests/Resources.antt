-- ===== src/Tests/Resources.antt =====
-- The theorems on certificates and restores, applied to small stores.
use kelmor.Base.{refl, some, [], ◌∷◌, ◌≡◌, inl, arith, eq_iff}
use kelmor.Store.Models.{RestoreJournal}
use kelmor.Base.Table.{lookup, find}
use kelmor.Store.Memory.{Memory, new_memory}
use kelmor.Store.Op.{err, errorf}
use kelmor.Store.Rows.Zones.{put_cert}
use kelmor.Store.Restores.{begin_restore, create_restore_with_job}
use kelmor.Store.Restores.Active.{
  OneActive, begin_restore-OneActive, create_restore_with_job-OneActive, begin_restore_active,
  Answer,
}
use kelmor.Store.Resources.{
  upsert_certificate_with_job, create_domain_with_job, commit_domain_mutation, commit_with,
}
use kelmor.Store.Normal.{normalize_job, job_replay, job_with_key, validate_new_job}
use kelmor.Store.Resources.Retry.{create_domain_with_job-retry}
use kelmor.Store.Resources.Certs.{OneCert, put_cert-OneCert, upsert_certificate_with_job-OneCert}
use kelmor.Tests.Data.{
  env, later, hosting, event, journal_of, cert_of, domain_of, keyed_job, account_of,
}

abbrev running : RestoreJournal
running = record (journal_of "backup-1" "restoring") { id = "restore-1" }

abbrev restoring : Memory
restoring = record new_memory {
  accounts = ("acc-1", account_of "acc-1" "ada" 1) ∷ [];
  restores = ("restore-1", running) ∷ [];
  certs = ("cert-1", cert_of "cert-1" "ada.test") ∷ [];
}

restoring-OneActive : OneActive restoring
restoring-OneActive = (tt, tt)

begin_restore-OneActive_example :
    OneActive (begin_restore env (some (journal_of "backup-2" "")) restoring).0
begin_restore-OneActive_example =
    begin_restore-OneActive env (some (journal_of "backup-2" "")) restoring restoring-OneActive

create_restore_with_job-OneActive_example :
    OneActive
      (create_restore_with_job env
        (some (record (journal_of "backup-2" "") { account_id = "acc-2" }))
        (some (keyed_job "job-1" "key"))
        event
        restoring).0
create_restore_with_job-OneActive_example =
    create_restore_with_job-OneActive env
      (some (record (journal_of "backup-2" "") { account_id = "acc-2" }))
      (some (keyed_job "job-1" "key")) event restoring restoring-OneActive

begin_restore_active_example :
    ((begin_restore env (some (journal_of "backup-2" "")) restoring).0 ≡ restoring)
    × Answer running
        (journal_of "backup-2" "")
        (begin_restore env (some (journal_of "backup-2" "")) restoring).1
begin_restore_active_example =
    begin_restore_active env "restore-1" (journal_of "backup-2" "") running restoring
      restoring-OneActive (inl (refl, refl)) refl (λ e. ground (arith, eq_iff "restoring" "", e))
      (λ e. ground (arith, eq_iff "restoring" "complete", e))
      (λ e. ground (arith, eq_iff "restoring" "failed", e))

restoring-OneCert : OneCert restoring
unfolding lookup
restoring-OneCert = record { once = (refl, tt); apart = (tt, tt) }

put_cert-OneCert_example : OneCert (put_cert (cert_of "cert-2" "ada.test") restoring)
put_cert-OneCert_example =
    put_cert-OneCert (cert_of "cert-2" "ada.test") restoring restoring-OneCert

upsert_certificate_with_job-OneCert_example :
    OneCert
      (upsert_certificate_with_job env
        (some (cert_of "cert-2" "www.ada.test"))
        (some (keyed_job "job-1" "key"))
        event
        restoring).0
upsert_certificate_with_job-OneCert_example =
    upsert_certificate_with_job-OneCert env (some (cert_of "cert-2" "www.ada.test"))
      (some (keyed_job "job-1" "key")) event restoring restoring-OneCert

create_domain_with_job-retry_example :
    let m' =
      (create_domain_with_job env
        (some (domain_of "dom-9" "acc-0" "new.test"))
        (some (keyed_job "job-1" "key"))
        event
        hosting).0 in
    create_domain_with_job later
      (some (domain_of "dom-9" "acc-0" "new.test"))
      (some (keyed_job "job-1" "key"))
      event
      m'
    ≡ (m', err (errorf "domain %q already exists" ("dom-9" ∷ [])))
unfolding create_domain_with_job new_memory commit_domain_mutation commit_with validate_new_job
    job_replay job_with_key lookup find normalize_job
create_domain_with_job-retry_example =
    create_domain_with_job-retry env later (domain_of "dom-9" "acc-0" "new.test")
      (keyed_job "job-1" "key") (normalize_job env (keyed_job "job-1" "key")) event hosting refl
      refl
