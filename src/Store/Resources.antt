-- ===== src/Store/Resources.antt =====
-- Domains, websites, certificates and backups changed together with a job: the methods of `Memory`
-- in internal/store/resource_atomic.go.
pub mod Certs
pub mod Retry
use kelmor.Base.{
  String, Bool, not, ◌&&◌, ◌||◌, Option, none, some, [], ◌∷◌, ◌==◌, is_some, if◌then◌else◌,
}
use kelmor.Base.Table.{lookup, insert, find, retain, has}
use kelmor.Store.Models.{Domain, Website, Certificate, BackupRun, Job, AuditEvent}
use kelmor.Store.Memory.{Memory}
use kelmor.Store.Commit.{owned_by}
use kelmor.Store.Normal.{
  normalize_job, normalize_audit, job_replay, validate_new_job, put_job, push_audit,
}
use kelmor.Store.Op.{
  errorf, Result, Env, Op, ◌>>=◌, ◌>>◌, pure, get, modify, refuse, given, reply, run,
}

-- The end that these methods share: the row, the job and the event are written together.
unfoldable pub commit_with : Env → Job → AuditEvent → (Memory → Memory) → Op Job Job
commit_with env job audit mutate = do
  let job' = normalize_job env job
  validate_new_job job'
  modify mutate
  modify (put_job job')
  modify (push_audit (normalize_audit env job' audit))
  pure job'

abbrev pub put_domain_row : Domain → Memory → Memory
put_domain_row d m = record m { domains = insert d.id d m.domains }

unfoldable pub commit_domain_mutation : Env → Domain → Job → AuditEvent → Op Job Job
commit_domain_mutation env domain job audit = do
  m ← get
  reply (job_replay job m)
  commit_with env job audit (put_domain_row domain)

-- The store is asked about the domain before a replay is looked for.
unfoldable pub create_domain_with_job :
    Env → Option Domain → Option Job → AuditEvent → Memory → Memory × Result Job
create_domain_with_job env domain? job? audit = run do
  domain ← given domain? (errorf "domain and job are required" [])
  job ← given job? (errorf "domain and job are required" [])
  m ← get
  refuse (not (has domain.account_id m.accounts))
      (errorf "account %q not found" (domain.account_id ∷ []))
  refuse (has domain.id m.domains) (errorf "domain %q already exists" (domain.id ∷ []))
  refuse (is_some (find (λ d. d.ascii == domain.ascii) m.domains))
      (errorf "domain %q already exists" (domain.ascii ∷ []))
  commit_domain_mutation env domain job audit

unfoldable pub update_domain_with_job :
    Env → Option Domain → Option Job → AuditEvent → Memory → Memory × Result Job
update_domain_with_job env domain? job? audit = run do
  domain ← given domain? (errorf "domain and job are required" [])
  job ← given job? (errorf "domain and job are required" [])
  m ← get
  refuse (not (owned_by (λ d. d.account_id) domain.account_id (lookup domain.id m.domains)))
      (errorf "domain %q not found" (domain.id ∷ []))
  commit_domain_mutation env domain job audit

unfoldable pub upsert_website_with_job :
    Env → Option Website → Option Job → AuditEvent → Memory → Memory × Result Job
upsert_website_with_job env website? job? audit = run do
  website ← given website? (errorf "website and job are required" [])
  job ← given job? (errorf "website and job are required" [])
  m ← get
  refuse (not (has website.account_id m.accounts))
      (errorf "account %q not found" (website.account_id ∷ []))
  refuse
      (not (owned_by (λ d. d.account_id) website.account_id (lookup website.domain_id m.domains)))
      (errorf "domain %q is not owned by account %q" (website.domain_id ∷ website.account_id ∷ []))
  reply (job_replay job m)
  commit_with env job audit (λ s. record s { websites = insert website.id website s.websites })

-- Another certificate of the account, under another id, for the host name.
unfoldable pub cert_clash : Certificate → Memory → Bool
cert_clash c m = is_some (
    find (λ e. e.account_id == c.account_id && e.hostname == c.hostname)
      (retain (λ id e. not (id == c.id)) m.certs))

unfoldable pub upsert_certificate_with_job :
    Env → Option Certificate → Option Job → AuditEvent → Memory → Memory × Result Job
upsert_certificate_with_job env certificate? job? audit = run do
  certificate ← given certificate? (errorf "certificate and job are required" [])
  job ← given job? (errorf "certificate and job are required" [])
  m ← get
  refuse (certificate.account_id == "" || not (has certificate.account_id m.accounts))
      (errorf "certificate account %q not found" (certificate.account_id ∷ []))
  reply (job_replay job m)
  refuse (cert_clash certificate m)
      (errorf "certificate already exists for %q" (certificate.hostname ∷ []))
  commit_with env job audit (λ s. record s { certs = insert certificate.id certificate s.certs })

unfoldable pub create_backup_with_job :
    Env → Option BackupRun → Option Job → AuditEvent → Memory → Memory × Result Job
create_backup_with_job env backup? job? audit = run do
  backup ← given backup? (errorf "backup and job are required" [])
  job ← given job? (errorf "backup and job are required" [])
  m ← get
  refuse (not (has backup.account_id m.accounts))
      (errorf "backup account %q not found" (backup.account_id ∷ []))
  reply (job_replay job m)
  refuse (has backup.id m.backups) (errorf "backup %q already exists" (backup.id ∷ []))
  commit_with env job audit (λ s. record s { backups = insert backup.id backup s.backups })
