-- ===== src/Store/Imports/Additions.antt =====
-- The rows that importAccountWithJob (internal/store/import_atomic.go) adds, beside those that were
-- there.
use kelmor.Base.{
  ℕ, String, true, false, ◌≡◌, refl, sym, inl, inr, Option, none, some, List, [], ◌∷◌, ◌==◌, All,
  Bool-cases, eq→≡, subst,
}
use kelmor.Base.Table.{Table, lookup, insert, has, lookup-insert}
use kelmor.Store.Models.{
  Account, Application, HostedDatabase, DatabaseUser, Mailbox, MailAlias, DnsRecord, Job,
  AuditEvent, CronJob, SshKey, FtpAccount,
}
use kelmor.Store.Memory.{Memory}
use kelmor.Store.Op.{Env}
use kelmor.Store.Normal.{put_job, with_audit}
use kelmor.Store.Imports.{AccountImport, KeptRows, insert_rows, insert_table, insert_import}
use kelmor.Store.Imports.Loops.{New, NewKeys}
use kelmor.Store.Imports.Checks.{Checked}

-- Every row of the one map stands in the other, as it was.
abbrev pub Extends : {V : Type 0} → Table V → Table V → Type 0
Extends {V} t u = (k : String) (v : V) → lookup k t ≡ some v → lookup k u ≡ some v

module _ {V : Type 0} (t : Table V) where
  insert-Extends :
      (k : String) (v : V) (u : Table V) → has k t ≡ false → Extends t u → Extends t (insert k v u)
  insert-Extends k v u new e j w h = elim (Bool-cases (k == j)) [
    | inl hit ↦
        let there : has k t ≡ true = subst (λ x. has x t ≡ true) (sym (eq→≡ k j hit)) (rw h refl) in
        absurd (cc (new, there))
    | inr miss ↦ rw (lookup-insert k j v u, miss) (e j w h)
  ]

  insert_rows-Extends :
      (key : V → String) (xs : List V) (u : Table V)
      → All (New key t) xs
      → Extends t u
      → Extends t (insert_rows key xs u)
  unfolding insert_rows
  insert_rows-Extends key [] u all e = e
  insert_rows-Extends key (x ∷ xs) u all e =
      insert_rows-Extends key xs (insert (key x) x u) all.1 (insert-Extends (key x) x u all.0 e)

  insert_table-Extends :
      (rows : Table V) (u : Table V)
      → NewKeys t rows
      → Extends t u
      → Extends t (insert_table rows u)
  unfolding insert_table
  insert_table-Extends [] u all e = e
  insert_table-Extends ((k, v) ∷ rows) u all e =
      insert_table-Extends rows (insert k v u) all.1 (insert-Extends k v u all.0 e)

  same-Extends : Extends t t
  same-Extends k v h = h

-- No row of any account is changed or lost.
pub record Extended (m m' : Memory) : Type 0 where
  pub accounts : Extends m.accounts m'.accounts
  pub domains : Extends m.domains m'.domains
  pub websites : Extends m.websites m'.websites
  pub apps : Extends m.apps m'.apps
  pub dbs : Extends m.dbs m'.dbs
  pub db_users : Extends m.db_users m'.db_users
  pub mail_dom : Extends m.mail_dom m'.mail_dom
  pub mailboxes : Extends m.mailboxes m'.mailboxes
  pub aliases : Extends m.aliases m'.aliases
  pub zones : Extends m.zones m'.zones
  pub records : Extends m.records m'.records
  pub crons : Extends m.crons m'.crons
  pub ssh_keys : Extends m.ssh_keys m'.ssh_keys
  pub ftps : Extends m.ftps m'.ftps
  pub jobs : Extends m.jobs m'.jobs
  pub users : m'.users ≡ m.users

-- The event is no row.
pub with_audit-Extended :
    (env : Env) (job : Job) (audit : Option AuditEvent) (m s : Memory)
    → Extended m s
    → Extended m (with_audit env job audit s)
with_audit-Extended env job none m s e = e
with_audit-Extended env job (some ev) m s e = record {
  accounts = e.accounts;
  domains = e.domains;
  websites = e.websites;
  apps = e.apps;
  dbs = e.dbs;
  db_users = e.db_users;
  mail_dom = e.mail_dom;
  mailboxes = e.mailboxes;
  aliases = e.aliases;
  zones = e.zones;
  records = e.records;
  crons = e.crons;
  ssh_keys = e.ssh_keys;
  ftps = e.ftps;
  jobs = e.jobs;
  users = e.users;
}

pub insert_import-Extended :
    (i : AccountImport) (account : Account) (k : KeptRows) (job : Job) (uid : ℕ) (m : Memory)
    → has account.id m.accounts ≡ false
    → has job.id m.jobs ≡ false
    → Checked i m k
    → Extended m (put_job job (insert_import i account k (record m { next_uid = uid })))
unfolding insert_import
insert_import-Extended i account k job uid m new new_job c = record {
  accounts = insert-Extends m.accounts account.id account m.accounts new (same-Extends m.accounts);
  domains = insert_table-Extends m.domains k.domains m.domains c.domains (same-Extends m.domains);
  websites =
      insert_table-Extends m.websites k.websites m.websites c.websites (same-Extends m.websites);
  apps =
      insert_rows-Extends m.apps (λ (x : Application). x.id) i.applications m.apps c.applications
        (same-Extends m.apps);
  dbs =
      insert_rows-Extends m.dbs (λ (x : HostedDatabase). x.id) i.databases m.dbs c.databases
        (same-Extends m.dbs);
  db_users =
      insert_rows-Extends m.db_users (λ (x : DatabaseUser). x.id) i.database_users m.db_users
        c.database_users (same-Extends m.db_users);
  mail_dom =
      insert_table-Extends m.mail_dom k.mail_domains m.mail_dom c.mail_domains
        (same-Extends m.mail_dom);
  mailboxes =
      insert_rows-Extends m.mailboxes (λ (x : Mailbox). x.id) i.mailboxes m.mailboxes c.mailboxes
        (same-Extends m.mailboxes);
  aliases =
      insert_rows-Extends m.aliases (λ (x : MailAlias). x.id) i.aliases m.aliases c.aliases
        (same-Extends m.aliases);
  zones = insert_table-Extends m.zones k.zones m.zones c.zones (same-Extends m.zones);
  records =
      insert_rows-Extends m.records (λ (x : DnsRecord). x.id) i.records m.records c.records
        (same-Extends m.records);
  crons =
      insert_rows-Extends m.crons (λ (x : CronJob). x.id) i.crons m.crons c.crons
        (same-Extends m.crons);
  ssh_keys =
      insert_rows-Extends m.ssh_keys (λ (x : SshKey). x.id) i.ssh m.ssh_keys c.ssh
        (same-Extends m.ssh_keys);
  ftps =
      insert_rows-Extends m.ftps (λ (x : FtpAccount). x.id) i.ftp m.ftps c.ftp
        (same-Extends m.ftps);
  jobs = insert-Extends m.jobs job.id job m.jobs new_job (same-Extends m.jobs);
  users = refl;
}
