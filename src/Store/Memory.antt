-- ===== src/Store/Memory.antt =====
-- The state of the in-memory store: `type Memory` and `NewMemory` of internal/store/memory.go.
-- The mutex is not a field: a method holds it for its whole body, so a method is one step (for
-- PurgeAccount, which releases it in between, this leaves the other callers out).
use kelmor.Base.{ℕ, String, List, []}
use kelmor.Base.Table.{Table}
use kelmor.Store.Models.{
  User, Session, Package, FeatureSet, Reseller, Account, Domain, Website, Application,
  HostedDatabase, DatabaseUser, DnsZone, DnsRecord, MailDomain, Mailbox, MailAlias, Certificate,
  Job, AuditEvent, ApiToken, BackupRun, RestoreJournal, CronJob, SshKey, FtpAccount, Usage,
}

pub record Memory : Type 0 where
  pub users : Table User
  pub sessions : Table Session
  pub packages : Table Package
  pub features : Table FeatureSet
  pub resellers : Table Reseller
  pub accounts : Table Account
  pub members : Table (List String)
  pub domains : Table Domain
  pub websites : Table Website
  pub apps : Table Application
  pub dbs : Table HostedDatabase
  pub db_users : Table DatabaseUser
  pub zones : Table DnsZone
  pub records : Table DnsRecord
  pub mail_dom : Table MailDomain
  pub mailboxes : Table Mailbox
  pub aliases : Table MailAlias
  pub certs : Table Certificate
  pub jobs : Table Job
  pub audit : List AuditEvent
  pub tokens : Table ApiToken
  pub backups : Table BackupRun
  pub restores : Table RestoreJournal
  pub crons : Table CronJob
  pub ssh_keys : Table SshKey
  pub ftps : Table FtpAccount
  pub usage : Table Usage
  pub resource_fences : Table ℕ
  pub next_uid : ℕ

unfoldable pub new_memory : Memory
new_memory = record {
  users = [];
  sessions = [];
  packages = [];
  features = [];
  resellers = [];
  accounts = [];
  members = [];
  domains = [];
  websites = [];
  apps = [];
  dbs = [];
  db_users = [];
  zones = [];
  records = [];
  mail_dom = [];
  mailboxes = [];
  aliases = [];
  certs = [];
  jobs = [];
  audit = [];
  tokens = [];
  backups = [];
  restores = [];
  crons = [];
  ssh_keys = [];
  ftps = [];
  usage = [];
  resource_fences = [];
  next_uid = 20000;
}
