-- ===== src/Store/Imports/Checks.antt =====
-- What the loops of importAccountWithJob (internal/store/import_atomic.go) find of the rows they let
-- pass.
use kelmor.Base.{String, ◌≡◌, refl, none, [], All, arith}
use kelmor.Base.Table.{Table}
use kelmor.Store.Models.{
  Domain, Website, Application, HostedDatabase, DatabaseUser, MailDomain, Mailbox, MailAlias,
  DnsZone, DnsRecord, CronJob, SshKey, FtpAccount,
}
use kelmor.Store.Memory.{Memory}
use kelmor.Store.Op.{ok, pure}
use kelmor.Store.Imports.{
  AccountImport, KeptRows, collect, check_all, import_rows, import_domain, import_website,
  import_application, import_database, import_database_user, import_mail_domain, import_mailbox,
  import_alias, import_zone, import_record, import_cron, import_ssh_key, import_ftp,
}
use kelmor.Store.Imports.Loops.{
  Only, New, NewKeys, kept-Only, refuse_some-Only, collect-NewKeys, check_all-New,
}

-- Every row has an id that its table has not.
pub record Checked (i : AccountImport) (m : Memory) (k : KeptRows) : Type 0 where
  pub domains : NewKeys m.domains k.domains
  pub websites : NewKeys m.websites k.websites
  pub mail_domains : NewKeys m.mail_dom k.mail_domains
  pub zones : NewKeys m.zones k.zones
  pub applications : All (New (λ (a : Application). a.id) m.apps) i.applications
  pub databases : All (New (λ (d : HostedDatabase). d.id) m.dbs) i.databases
  pub database_users : All (New (λ (u : DatabaseUser). u.id) m.db_users) i.database_users
  pub mailboxes : All (New (λ (b : Mailbox). b.id) m.mailboxes) i.mailboxes
  pub aliases : All (New (λ (a : MailAlias). a.id) m.aliases) i.aliases
  pub records : All (New (λ (r : DnsRecord). r.id) m.records) i.records
  pub crons : All (New (λ (c : CronJob). c.id) m.crons) i.crons
  pub ssh : All (New (λ (s : SshKey). s.id) m.ssh_keys) i.ssh
  pub ftp : All (New (λ (f : FtpAccount). f.id) m.ftps) i.ftp

module _ (i : AccountImport) (m : Memory) where
  abbrev id : String
  id = i.account.id

  import_domain-New :
      (seen : Table Domain) (x : Domain)
      → import_domain id m x seen ≡ none
      → New (λ (y : Domain). y.id) m.domains x
  unfolding import_domain
  import_domain-New seen x h = ground (arith)

  import_website-New :
      (domains : Table Domain) (seen : Table Website) (x : Website)
      → import_website id domains m x seen ≡ none
      → New (λ (y : Website). y.id) m.websites x
  unfolding import_website
  import_website-New domains seen x h = ground (arith)

  import_application-New :
      (websites : Table Website) (x : Application)
      → import_application id websites m x ≡ none
      → New (λ (y : Application). y.id) m.apps x
  unfolding import_application
  import_application-New websites x h = ground (arith)

  import_database-New :
      (x : HostedDatabase)
      → import_database id m x ≡ none
      → New (λ (y : HostedDatabase). y.id) m.dbs x
  unfolding import_database
  import_database-New x h = ground (arith)

  import_database_user-New :
      (x : DatabaseUser)
      → import_database_user id m x ≡ none
      → New (λ (y : DatabaseUser). y.id) m.db_users x
  unfolding import_database_user
  import_database_user-New x h = ground (arith)

  import_mail_domain-New :
      (domains : Table Domain) (seen : Table MailDomain) (x : MailDomain)
      → import_mail_domain id domains m x seen ≡ none
      → New (λ (y : MailDomain). y.id) m.mail_dom x
  unfolding import_mail_domain
  import_mail_domain-New domains seen x h = ground (arith)

  import_mailbox-New :
      (domains : Table MailDomain) (x : Mailbox)
      → import_mailbox id domains m x ≡ none
      → New (λ (y : Mailbox). y.id) m.mailboxes x
  unfolding import_mailbox
  import_mailbox-New domains x h = ground (arith)

  import_alias-New :
      (domains : Table MailDomain) (x : MailAlias)
      → import_alias id domains m x ≡ none
      → New (λ (y : MailAlias). y.id) m.aliases x
  unfolding import_alias
  import_alias-New domains x h = ground (arith)

  import_zone-New :
      (domains : Table Domain) (seen : Table DnsZone) (x : DnsZone)
      → import_zone id domains m x seen ≡ none
      → New (λ (y : DnsZone). y.id) m.zones x
  unfolding import_zone
  import_zone-New domains seen x h = ground (arith)

  import_record-New :
      (zones : Table DnsZone) (x : DnsRecord)
      → import_record zones m x ≡ none
      → New (λ (y : DnsRecord). y.id) m.records x
  unfolding import_record
  import_record-New zones x h = ground (arith)

  import_cron-New :
      (x : CronJob) → import_cron id m x ≡ none → New (λ (y : CronJob). y.id) m.crons x
  unfolding import_cron
  import_cron-New x h = ground (arith)

  import_ssh_key-New :
      (x : SshKey) → import_ssh_key id m x ≡ none → New (λ (y : SshKey). y.id) m.ssh_keys x
  unfolding import_ssh_key
  import_ssh_key-New x h = ground (arith)

  import_ftp-New :
      (x : FtpAccount) → import_ftp id m x ≡ none → New (λ (y : FtpAccount). y.id) m.ftps x
  unfolding import_ftp
  import_ftp-New x h = ground (arith)

  build-Checked :
      (k : KeptRows)
      → collect (λ (d : Domain). d.id) (import_domain id m) i.domains [] ≡ ok k.domains
      → collect (λ (w : Website). w.id) (import_website id k.domains m) i.websites []
        ≡ ok k.websites
      → check_all (import_application id k.websites m) i.applications ≡ none
      → check_all (import_database id m) i.databases ≡ none
      → check_all (import_database_user id m) i.database_users ≡ none
      → collect (λ (d : MailDomain). d.id) (import_mail_domain id k.domains m) i.mail_domains []
        ≡ ok k.mail_domains
      → check_all (import_mailbox id k.mail_domains m) i.mailboxes ≡ none
      → check_all (import_alias id k.mail_domains m) i.aliases ≡ none
      → collect (λ (z : DnsZone). z.id) (import_zone id k.domains m) i.zones [] ≡ ok k.zones
      → check_all (import_record k.zones m) i.records ≡ none
      → check_all (import_cron id m) i.crons ≡ none
      → check_all (import_ssh_key id m) i.ssh ≡ none
      → check_all (import_ftp id m) i.ftp ≡ none
      → Checked i m k
  build-Checked k e1 e2 e3 e4 e5 e6 e7 e8 e9 e10 e11 e12 e13 = record {
    domains =
        collect-NewKeys m.domains (λ (d : Domain). d.id) (import_domain id m) i.domains []
          (λ x u h. import_domain-New u x h) tt e1;
    websites =
        collect-NewKeys m.websites (λ (w : Website). w.id) (import_website id k.domains m)
          i.websites [] (λ x u h. import_website-New k.domains u x h) tt e2;
    mail_domains =
        collect-NewKeys m.mail_dom (λ (d : MailDomain). d.id) (import_mail_domain id k.domains m)
          i.mail_domains [] (λ x u h. import_mail_domain-New k.domains u x h) tt e6;
    zones =
        collect-NewKeys m.zones (λ (z : DnsZone). z.id) (import_zone id k.domains m) i.zones []
          (λ x u h. import_zone-New k.domains u x h) tt e9;
    applications =
        check_all-New m.apps (λ (x : Application). x.id) (import_application id k.websites m)
          i.applications (import_application-New k.websites) e3;
    databases =
        check_all-New m.dbs (λ (x : HostedDatabase). x.id) (import_database id m) i.databases
          import_database-New e4;
    database_users =
        check_all-New m.db_users (λ (x : DatabaseUser). x.id) (import_database_user id m)
          i.database_users import_database_user-New e5;
    mailboxes =
        check_all-New m.mailboxes (λ (x : Mailbox). x.id) (import_mailbox id k.mail_domains m)
          i.mailboxes (import_mailbox-New k.mail_domains) e7;
    aliases =
        check_all-New m.aliases (λ (x : MailAlias). x.id) (import_alias id k.mail_domains m)
          i.aliases (import_alias-New k.mail_domains) e8;
    records =
        check_all-New m.records (λ (x : DnsRecord). x.id) (import_record k.zones m) i.records
          (import_record-New k.zones) e10;
    crons =
        check_all-New m.crons (λ (x : CronJob). x.id) (import_cron id m) i.crons import_cron-New
          e11;
    ssh =
        check_all-New m.ssh_keys (λ (x : SshKey). x.id) (import_ssh_key id m) i.ssh
          import_ssh_key-New e12;
    ftp =
        check_all-New m.ftps (λ (x : FtpAccount). x.id) (import_ftp id m) i.ftp import_ftp-New e13;
  }

pub import_rows-Checked :
    (R : Type 0) (i : AccountImport) (m s : Memory)
    → Only s (Checked i m) (import_rows {R = R} i m s)
unfolding import_rows
import_rows-Checked R i m s = kept-Only s (Checked i m) _ _ (λ domains e1.
    kept-Only s (Checked i m) _ _ (λ websites e2. refuse_some-Only s (Checked i m) _ _ (λ e3.
      refuse_some-Only s (Checked i m) _ _ (λ e4. refuse_some-Only s (Checked i m) _ _ (λ e5.
        kept-Only s (Checked i m) _ _ (λ mail_domains e6.
          refuse_some-Only s (Checked i m) _ _ (λ e7. refuse_some-Only s (Checked i m) _ _ (λ e8.
            kept-Only s (Checked i m) _ _ (λ zones e9. refuse_some-Only s (Checked i m) _ _ (λ e10.
              refuse_some-Only s (Checked i m) _ _ (λ e11.
                refuse_some-Only s (Checked i m) _ _ (λ e12.
                  refuse_some-Only s (Checked i m) (check_all (import_ftp i.account.id m) i.ftp)
                    (pure (record {
                      domains = domains;
                      websites = websites;
                      mail_domains = mail_domains;
                      zones = zones;
                    }))
                    (λ e13. (
                      refl,
                      build-Checked i m
                          (record {
                            domains = domains;
                            websites = websites;
                            mail_domains = mail_domains;
                            zones = zones;
                          })
                          e1 e2 e3 e4 e5 e6 e7 e8 e9 e10 e11 e12 e13,
                    ))))))))))))))
