-- ===== src/Store/Imports.antt =====
-- The import of an account with all its rows: importAccountWithJob of
-- internal/store/import_atomic.go.
pub mod Loops
pub mod Checks
pub mod Additions
pub mod Keeps
use kelmor.Base.{
  String, Bool, true, false, not, ◌&&◌, ◌||◌, Option, none, some, List, [], ◌∷◌, ◌==◌, nat_eq,
  if◌then◌else◌, is_some,
}
use kelmor.Base.Table.{Table, lookup, insert, find, has}
use kelmor.Store.Models.{
  Account, Domain, Website, Application, HostedDatabase, DatabaseUser, MailDomain, Mailbox,
  MailAlias, DnsZone, DnsRecord, CronJob, SshKey, FtpAccount, Job, AuditEvent,
}
use kelmor.Store.Memory.{Memory}
use kelmor.Store.Accounts.{target, assign_uid}
use kelmor.Store.Normal.{normalize_job, job_replay, validate_new_job, put_job, with_audit}
use kelmor.Store.Op.{
  StoreError, errorf, Result, ok, err, Env, Op, ◌>>=◌, ◌>>◌, pure, get, modify, refuse_some, given,
  reply, exit, run,
}

pub record AccountImport : Type 0 where
  pub account : Account
  pub domains : List Domain
  pub websites : List Website
  pub applications : List Application
  pub databases : List HostedDatabase
  pub database_users : List DatabaseUser
  pub mail_domains : List MailDomain
  pub mailboxes : List Mailbox
  pub aliases : List MailAlias
  pub zones : List DnsZone
  pub records : List DnsRecord
  pub crons : List CronJob
  pub ftp : List FtpAccount
  pub ssh : List SshKey

-- A loop that tests each row against those before it, which it keeps by their ids.
unfoldable pub collect :
    {V : Type 0}
    → (V → String)
    → (V → Table V → Option StoreError)
    → List V
    → Table V
    → Result (Table V)
collect key check [] t = ok t
collect key check (x ∷ xs) t = elim (check x t) [
  | some e ↦ err e
  | none ↦ collect key check xs (insert (key x) x t)
]

-- A loop that tests each row.
unfoldable pub check_all : {V : Type 0} → (V → Option StoreError) → List V → Option StoreError
check_all check [] = none
check_all check (x ∷ xs) = elim (check x) [ some e ↦ some e | none ↦ check_all check xs ]

abbrev pub unless : Bool → StoreError → Option StoreError
unless true e = none
unless false e = some e

unfoldable pub import_account_clash : Account → Memory → Option StoreError
import_account_clash account m =
    if account.id == "" || (account.owner_user_id == "" || not (has account.owner_user_id m.users))
    then some (errorf "import account owner is missing" [])
    else if not (has account.package_id m.packages)
    then some (errorf "package %q not found" (account.package_id ∷ []))
    else if has account.id m.accounts
    then some (errorf "account %q already exists" (account.id ∷ []))
    else if is_some (find (λ a. a.username == account.username) m.accounts)
    then some (errorf "account username %q already exists" (account.username ∷ []))
    else none

-- The id is there and new, and the row is of the account.
abbrev pub is_new : {V : Type 0} → String → Table V → Bool
is_new id t = not (id == "") && not (has id t)

unfoldable pub import_domain : String → Memory → Domain → Table Domain → Option StoreError
import_domain account_id m d seen =
    if not (is_new d.id m.domains && d.account_id == account_id)
    then some (errorf "invalid imported domain %q" (d.id ∷ []))
    else if not (d.ascii == "") && is_some (find (λ e. e.ascii == d.ascii) m.domains)
    then some (errorf "domain %q already exists" (d.ascii ∷ []))
    else if has d.id seen
    then some (errorf "duplicate imported domain %q" (d.id ∷ []))
    else none

abbrev pub of_account : {V : Type 0} → (V → String) → String → Option V → Bool
of_account owner account_id none = false
of_account owner account_id (some v) = owner v == account_id

unfoldable pub import_website :
    String → Table Domain → Memory → Website → Table Website → Option StoreError
import_website account_id domains m w seen =
    if not (
      is_new w.id m.websites
      && (w.account_id == account_id
          && of_account (λ (d : Domain). d.account_id) account_id (lookup w.domain_id domains)))
    then some (errorf "invalid imported website %q" (w.id ∷ []))
    else if has w.id seen
    then some (errorf "duplicate imported website %q" (w.id ∷ []))
    else none

unfoldable pub import_application :
    String → Table Website → Memory → Application → Option StoreError
import_application account_id websites m a =
    unless
      (is_new a.id m.apps
        && (a.account_id == account_id
            && of_account (λ (w : Website). w.account_id) account_id
                (lookup a.website_id websites)))
      (errorf "invalid imported application %q" (a.id ∷ []))

unfoldable pub import_database : String → Memory → HostedDatabase → Option StoreError
import_database account_id m d =
    unless (is_new d.id m.dbs && d.account_id == account_id)
      (errorf "invalid imported database %q" (d.id ∷ []))

unfoldable pub import_database_user : String → Memory → DatabaseUser → Option StoreError
import_database_user account_id m u =
    unless (is_new u.id m.db_users && u.account_id == account_id)
      (errorf "invalid imported database user %q" (u.id ∷ []))

unfoldable pub import_mail_domain :
    String → Table Domain → Memory → MailDomain → Table MailDomain → Option StoreError
import_mail_domain account_id domains m d seen =
    unless
      (is_new d.id m.mail_dom
        && (d.account_id == account_id
            && of_account (λ (e : Domain). e.account_id) account_id (lookup d.domain_id domains)))
      (errorf "invalid imported mail domain %q" (d.id ∷ []))

unfoldable pub import_mailbox : String → Table MailDomain → Memory → Mailbox → Option StoreError
import_mailbox account_id mail_domains m b =
    unless
      (is_new b.id m.mailboxes
        && (b.account_id == account_id
            && of_account (λ (d : MailDomain). d.account_id) account_id
                (lookup b.domain_id mail_domains)))
      (errorf "invalid imported mailbox %q" (b.id ∷ []))

unfoldable pub import_alias : String → Table MailDomain → Memory → MailAlias → Option StoreError
import_alias account_id mail_domains m a =
    unless
      (is_new a.id m.aliases
        && (a.account_id == account_id
            && of_account (λ (d : MailDomain). d.account_id) account_id
                (lookup a.domain_id mail_domains)))
      (errorf "invalid imported mail alias %q" (a.id ∷ []))

unfoldable pub import_zone :
    String → Table Domain → Memory → DnsZone → Table DnsZone → Option StoreError
import_zone account_id domains m z seen =
    unless
      (is_new z.id m.zones
        && (z.account_id == account_id
            && of_account (λ (d : Domain). d.account_id) account_id (lookup z.domain_id domains)))
      (errorf "invalid imported DNS zone %q" (z.id ∷ []))

unfoldable pub import_record : Table DnsZone → Memory → DnsRecord → Option StoreError
import_record zones m r =
    if not (is_new r.id m.records)
    then some (errorf "invalid imported DNS record %q" (r.id ∷ []))
    else unless (has r.zone_id zones) (errorf "DNS record %q references missing zone" (r.id ∷ []))

unfoldable pub import_cron : String → Memory → CronJob → Option StoreError
import_cron account_id m c =
    unless (is_new c.id m.crons && c.account_id == account_id)
      (errorf "invalid imported cron %q" (c.id ∷ []))

unfoldable pub import_ssh_key : String → Memory → SshKey → Option StoreError
import_ssh_key account_id m k =
    unless (is_new k.id m.ssh_keys && k.account_id == account_id)
      (errorf "invalid imported SSH key %q" (k.id ∷ []))

unfoldable pub import_ftp : String → Memory → FtpAccount → Option StoreError
import_ftp account_id m f =
    if not (is_new f.id m.ftps && f.account_id == account_id)
    then some (errorf "invalid imported FTP account %q" (f.id ∷ []))
    else unless (not (is_some (find (λ e. e.username == f.username) m.ftps)))
        (errorf "FTP username %q already exists" (f.username ∷ []))

-- The rows that the loops keep by their ids.
pub record KeptRows : Type 0 where
  pub domains : Table Domain
  pub websites : Table Website
  pub mail_domains : Table MailDomain
  pub zones : Table DnsZone

abbrev pub kept : {R A : Type 0} → Result A → Op R A
kept (ok a) = pure a
kept (err e) = exit (err e)

-- All loops that test the rows, in their order.
unfoldable pub import_rows : {R : Type 0} → AccountImport → Memory → Op R KeptRows
import_rows i m = do
  let id = i.account.id
  domains ← kept (collect (λ (d : Domain). d.id) (import_domain id m) i.domains [])
  websites ← kept (collect (λ (w : Website). w.id) (import_website id domains m) i.websites [])
  refuse_some (check_all (import_application id websites m) i.applications)
  refuse_some (check_all (import_database id m) i.databases)
  refuse_some (check_all (import_database_user id m) i.database_users)
  mail_domains ←
      kept (collect (λ (d : MailDomain). d.id) (import_mail_domain id domains m) i.mail_domains [])
  refuse_some (check_all (import_mailbox id mail_domains m) i.mailboxes)
  refuse_some (check_all (import_alias id mail_domains m) i.aliases)
  zones ← kept (collect (λ (z : DnsZone). z.id) (import_zone id domains m) i.zones [])
  refuse_some (check_all (import_record zones m) i.records)
  refuse_some (check_all (import_cron id m) i.crons)
  refuse_some (check_all (import_ssh_key id m) i.ssh)
  refuse_some (check_all (import_ftp id m) i.ftp)
  pure (record {
    domains = domains;
    websites = websites;
    mail_domains = mail_domains;
    zones = zones;
  })

-- for i := range rows { m.T[rows[i].ID] = &rows[i] }
unfoldable pub insert_rows : {V : Type 0} → (V → String) → List V → Table V → Table V
insert_rows key [] t = t
insert_rows key (x ∷ xs) t = insert_rows key xs (insert (key x) x t)

-- for id, value := range rows { m.T[id] = &value }
unfoldable pub insert_table : {V : Type 0} → Table V → Table V → Table V
insert_table [] t = t
insert_table ((k, v) ∷ rows) t = insert_table rows (insert k v t)

unfoldable pub insert_import : AccountImport → Account → KeptRows → Memory → Memory
insert_import i account k m = record m {
  accounts = insert account.id account m.accounts;
  domains = insert_table k.domains m.domains;
  websites = insert_table k.websites m.websites;
  apps = insert_rows (λ (a : Application). a.id) i.applications m.apps;
  dbs = insert_rows (λ (d : HostedDatabase). d.id) i.databases m.dbs;
  db_users = insert_rows (λ (u : DatabaseUser). u.id) i.database_users m.db_users;
  mail_dom = insert_table k.mail_domains m.mail_dom;
  mailboxes = insert_rows (λ (b : Mailbox). b.id) i.mailboxes m.mailboxes;
  aliases = insert_rows (λ (a : MailAlias). a.id) i.aliases m.aliases;
  zones = insert_table k.zones m.zones;
  records = insert_rows (λ (r : DnsRecord). r.id) i.records m.records;
  crons = insert_rows (λ (c : CronJob). c.id) i.crons m.crons;
  ssh_keys = insert_rows (λ (s : SshKey). s.id) i.ssh m.ssh_keys;
  ftps = insert_rows (λ (f : FtpAccount). f.id) i.ftp m.ftps;
}

unfoldable pub import_account_with_job :
    Env → Option AccountImport → Option Job → Option AuditEvent → Memory → Memory × Result Job
import_account_with_job env imported? job? audit = run do
  imported ← given imported? (errorf "import and job are required" [])
  job ← given job? (errorf "import and job are required" [])
  m ← get
  refuse_some (import_account_clash imported.account m)
  reply (job_replay job m)
  rows ← import_rows imported m
  let job' = normalize_job env (target job imported.account)
  validate_new_job job'
  account ← assign_uid imported.account
  modify (insert_import imported account rows)
  modify (put_job job')
  modify (with_audit env job' audit)
  pure job'
