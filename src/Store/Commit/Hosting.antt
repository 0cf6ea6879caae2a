-- ===== src/Store/Commit/Hosting.antt =====
-- Applications, databases, zones, records, cron jobs and FTP accounts (internal/store/async_atomic.go).
use kelmor.Base.{String, Bool, not, ◌&&◌, Option, none, some, [], ◌∷◌, ◌==◌, if◌then◌else◌, is_some}
use kelmor.Base.Table.{lookup, insert, erase, retain, find, has}
use kelmor.Store.Models.{
  Application, HostedDatabase, DatabaseUser, DnsZone, DnsRecord, CronJob, FtpAccount, Job,
  AuditEvent,
}
use kelmor.Store.Memory.{Memory}
use kelmor.Store.Op.{StoreError, errorf, Result, Env}
use kelmor.Store.Commit.{owned_by, commit_async_mutation}

unfoldable pub upsert_application_with_job_check : Option Application → Memory → Option StoreError
upsert_application_with_job_check none m = some (errorf "application is required" [])
upsert_application_with_job_check (some application) m =
    if owned_by (λ p. p.account_id) application.account_id
      (lookup application.website_id m.websites)
    then none
    else some (
        errorf "website %q is not owned by account %q"
          (application.website_id ∷ application.account_id ∷ []))

abbrev pub upsert_application_with_job_change : Option Application → Memory → Memory
upsert_application_with_job_change none m = m
upsert_application_with_job_change (some application) m = record m {
  apps = insert application.id application m.apps;
}

unfoldable pub upsert_application_with_job :
    Env → Option Application → Option Job → AuditEvent → Memory → Memory × Result Job
upsert_application_with_job env application job audit =
    commit_async_mutation env job audit (upsert_application_with_job_check application)
      (upsert_application_with_job_change application)

unfoldable pub upsert_database_with_job_check :
    Option HostedDatabase → Option DatabaseUser → Memory → Option StoreError
upsert_database_with_job_check none user m = some (errorf "database account is missing" [])
upsert_database_with_job_check (some database) user m =
    if not (has database.account_id m.accounts)
    then some (errorf "database account is missing" [])
    else if is_some user && not (owned_by (λ u. u.account_id) database.account_id user)
    then some (errorf "database user belongs to another account" [])
    else none

abbrev pub insert_db_user : Option DatabaseUser → Memory → Memory
insert_db_user none m = m
insert_db_user (some user) m = record m { db_users = insert user.id user m.db_users }

abbrev pub upsert_database_with_job_change :
    Option HostedDatabase → Option DatabaseUser → Memory → Memory
upsert_database_with_job_change none user m = m
upsert_database_with_job_change (some database) user m =
    insert_db_user user (record m { dbs = insert database.id database m.dbs })

unfoldable pub upsert_database_with_job :
    Env
    → Option HostedDatabase
    → Option DatabaseUser
    → Option Job
    → AuditEvent
    → Memory
    → Memory × Result Job
upsert_database_with_job env database user job audit =
    commit_async_mutation env job audit (upsert_database_with_job_check database user)
      (upsert_database_with_job_change database user)

-- A database is not deleted here: it is marked, and the job deletes it.
unfoldable pub delete_database_with_job_check : String → String → Memory → Option StoreError
delete_database_with_job_check id account_id m =
    if owned_by (λ d. d.account_id) account_id (lookup id m.dbs)
    then none
    else some (errorf "database %q not found" (id ∷ []))

abbrev pub mark_terminating : String → Option HostedDatabase → Memory → Memory
mark_terminating id none m = m
mark_terminating id (some d) m = record m {
  dbs = insert id (record d { status = "terminating" }) m.dbs;
}

unfoldable pub delete_database_with_job :
    Env → String → String → Option Job → AuditEvent → Memory → Memory × Result Job
delete_database_with_job env id account_id job audit =
    commit_async_mutation env job audit (delete_database_with_job_check id account_id)
      (λ m. mark_terminating id (lookup id m.dbs) m)

unfoldable pub upsert_zone_with_job_check : Option DnsZone → Memory → Option StoreError
upsert_zone_with_job_check none m = some (errorf "DNS zone account is missing" [])
upsert_zone_with_job_check (some zone) m =
    if has zone.account_id m.accounts then none else some (errorf "DNS zone account is missing" [])

abbrev pub upsert_zone_with_job_change : Option DnsZone → Memory → Memory
upsert_zone_with_job_change none m = m
upsert_zone_with_job_change (some zone) m = record m { zones = insert zone.id zone m.zones }

unfoldable pub upsert_zone_with_job :
    Env → Option DnsZone → Option Job → AuditEvent → Memory → Memory × Result Job
upsert_zone_with_job env zone job audit =
    commit_async_mutation env job audit (upsert_zone_with_job_check zone)
      (upsert_zone_with_job_change zone)

unfoldable pub create_record_with_job_check : Option DnsRecord → String → Memory → Option StoreError
create_record_with_job_check none account_id m = some (errorf "DNS record is required" [])
create_record_with_job_check (some rec) account_id m =
    if owned_by (λ z. z.account_id) account_id (lookup rec.zone_id m.zones)
    then none
    else some (errorf "DNS zone %q not found" (rec.zone_id ∷ []))

abbrev pub create_record_with_job_change : Option DnsRecord → Memory → Memory
create_record_with_job_change none m = m
create_record_with_job_change (some rec) m = record m { records = insert rec.id rec m.records }

unfoldable pub create_record_with_job :
    Env → Option DnsRecord → String → Option Job → AuditEvent → Memory → Memory × Result Job
create_record_with_job env rec account_id job audit =
    commit_async_mutation env job audit (create_record_with_job_check rec account_id)
      (create_record_with_job_change rec)

unfoldable pub delete_record_with_job_check : String → String → String → Memory → Option StoreError
delete_record_with_job_check record_id zone_id account_id m =
    if owned_by (λ z. z.account_id) account_id (lookup zone_id m.zones)
      && owned_by (λ r. r.zone_id) zone_id (lookup record_id m.records)
    then none
    else some (errorf "DNS record %q not found" (record_id ∷ []))

unfoldable pub delete_record_with_job :
    Env → String → String → String → Option Job → AuditEvent → Memory → Memory × Result Job
delete_record_with_job env record_id zone_id account_id job audit =
    commit_async_mutation env job audit (delete_record_with_job_check record_id zone_id account_id)
      (λ m. record m { records = erase record_id m.records })

unfoldable pub upsert_cron_with_job_check : Option CronJob → Memory → Option StoreError
upsert_cron_with_job_check none m = some (errorf "cron account is missing" [])
upsert_cron_with_job_check (some cron) m =
    if has cron.account_id m.accounts then none else some (errorf "cron account is missing" [])

abbrev pub upsert_cron_with_job_change : Option CronJob → Memory → Memory
upsert_cron_with_job_change none m = m
upsert_cron_with_job_change (some cron) m = record m { crons = insert cron.id cron m.crons }

unfoldable pub upsert_cron_with_job :
    Env → Option CronJob → Option Job → AuditEvent → Memory → Memory × Result Job
upsert_cron_with_job env cron job audit =
    commit_async_mutation env job audit (upsert_cron_with_job_check cron)
      (upsert_cron_with_job_change cron)

unfoldable pub delete_cron_with_job_check : String → String → Memory → Option StoreError
delete_cron_with_job_check id account_id m =
    if owned_by (λ p. p.account_id) account_id (lookup id m.crons)
    then none
    else some (errorf "cron %q not found" (id ∷ []))

unfoldable pub delete_cron_with_job :
    Env → String → String → Option Job → AuditEvent → Memory → Memory × Result Job
delete_cron_with_job env id account_id job audit =
    commit_async_mutation env job audit (delete_cron_with_job_check id account_id)
      (λ m. record m { crons = erase id m.crons })

-- Another FTP account, under another id, with the name.
abbrev pub ftp_name_taken : FtpAccount → Memory → Bool
ftp_name_taken ftp m =
    is_some (find (λ e. e.username == ftp.username) (retain (λ id e. not (id == ftp.id)) m.ftps))

unfoldable pub upsert_ftp_with_job_check : Option FtpAccount → Memory → Option StoreError
upsert_ftp_with_job_check none m = some (errorf "FTP account owner is missing" [])
upsert_ftp_with_job_check (some ftp) m =
    if not (has ftp.account_id m.accounts)
    then some (errorf "FTP account owner is missing" [])
    else if ftp_name_taken ftp m
    then some (errorf "FTP username %q already exists" (ftp.username ∷ []))
    else none

abbrev pub upsert_ftp_with_job_change : Option FtpAccount → Memory → Memory
upsert_ftp_with_job_change none m = m
upsert_ftp_with_job_change (some ftp) m = record m { ftps = insert ftp.id ftp m.ftps }

unfoldable pub upsert_ftp_with_job :
    Env → Option FtpAccount → Option Job → AuditEvent → Memory → Memory × Result Job
upsert_ftp_with_job env ftp job audit =
    commit_async_mutation env job audit (upsert_ftp_with_job_check ftp)
      (upsert_ftp_with_job_change ftp)

unfoldable pub delete_ftp_with_job_check : String → String → Memory → Option StoreError
delete_ftp_with_job_check id account_id m =
    if owned_by (λ p. p.account_id) account_id (lookup id m.ftps)
    then none
    else some (errorf "FTP account %q not found" (id ∷ []))

unfoldable pub delete_ftp_with_job :
    Env → String → String → Option Job → AuditEvent → Memory → Memory × Result Job
delete_ftp_with_job env id account_id job audit =
    commit_async_mutation env job audit (delete_ftp_with_job_check id account_id)
      (λ m. record m { ftps = erase id m.ftps })
