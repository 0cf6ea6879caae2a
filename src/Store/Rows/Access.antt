-- ===== src/Store/Rows/Access.antt =====
-- Tokens, backups, cron jobs, keys, FTP accounts, usage and the audit log as rows
-- (internal/store/memory.go).
use kelmor.Base.{ℕ, String, Bool, not, ◌&&◌, Option, List, ◌==◌, is_some, filter, ◌++◌, [], ◌∷◌}
use kelmor.Base.Table.{lookup, insert, erase, find, values}
use kelmor.Store.Models.{ApiToken, BackupRun, CronJob, SshKey, FtpAccount, Usage, AuditEvent}
use kelmor.Store.Memory.{Memory}
use kelmor.Store.Op.{Env}
use kelmor.Store.Normal.{or_empty, or_zero}
use kelmor.Store.Rows.Common.{bytes_eq, is_past}

unfoldable pub put_token : ApiToken → Memory → Memory
put_token v m = record m { tokens = insert v.id v m.tokens }

unfoldable pub get_token : String → Memory → Option ApiToken
get_token id m = lookup id m.tokens

unfoldable pub delete_token : String → Memory → Memory
delete_token id m = record m { tokens = erase id m.tokens }

-- A token is good while it is not revoked and its end, if it has one, is not past.
unfoldable pub is_live_token : ℕ → List ℕ → ApiToken → Bool
is_live_token now hash t =
    bytes_eq t.token_hash hash && (not (is_some t.revoked_at) && not (is_past now t.expires_at))

unfoldable pub token_by_hash : Env → List ℕ → Memory → Option ApiToken
token_by_hash env hash m = find (is_live_token env.now hash) m.tokens

unfoldable pub list_tokens : String → Memory → List ApiToken
list_tokens owner m = filter (λ v. v.user_id == owner) (values m.tokens)

unfoldable pub put_backup : BackupRun → Memory → Memory
put_backup v m = record m { backups = insert v.id v m.backups }

unfoldable pub get_backup : String → Memory → Option BackupRun
get_backup id m = lookup id m.backups

unfoldable pub put_cron : CronJob → Memory → Memory
put_cron v m = record m { crons = insert v.id v m.crons }

unfoldable pub get_cron : String → Memory → Option CronJob
get_cron id m = lookup id m.crons

unfoldable pub delete_cron : String → Memory → Memory
delete_cron id m = record m { crons = erase id m.crons }

unfoldable pub list_crons : String → Memory → List CronJob
list_crons owner m = filter (λ v. v.account_id == owner) (values m.crons)

unfoldable pub put_ssh : SshKey → Memory → Memory
put_ssh v m = record m { ssh_keys = insert v.id v m.ssh_keys }

unfoldable pub get_ssh : String → Memory → Option SshKey
get_ssh id m = lookup id m.ssh_keys

unfoldable pub delete_ssh : String → Memory → Memory
delete_ssh id m = record m { ssh_keys = erase id m.ssh_keys }

unfoldable pub list_ssh : String → Memory → List SshKey
list_ssh owner m = filter (λ v. v.account_id == owner) (values m.ssh_keys)

unfoldable pub put_ftp : FtpAccount → Memory → Memory
put_ftp v m = record m { ftps = insert v.id v m.ftps }

unfoldable pub list_ftp : String → Memory → List FtpAccount
list_ftp owner m = filter (λ v. v.account_id == owner) (values m.ftps)

unfoldable pub list_all_ftp : Memory → List FtpAccount
list_all_ftp m = values m.ftps

unfoldable pub ftp_username_taken : String → String → Memory → Bool
ftp_username_taken username except_id m =
    is_some (find (λ f. f.username == username && not (f.id == except_id)) m.ftps)

unfoldable pub delete_ftp : String → Memory → Memory
delete_ftp id m = record m { ftps = erase id m.ftps }

unfoldable pub put_usage : Usage → Memory → Memory
put_usage v m = record m { usage = insert v.account_id v m.usage }

unfoldable pub get_usage : String → Memory → Option Usage
get_usage id m = lookup id m.usage

unfoldable pub append_audit : Env → AuditEvent → Memory → Memory
append_audit env e m = record m {
  audit =
      m.audit
      ++ (record e { id = or_empty e.id env.audit_id; occurred_at = or_zero e.occurred_at env.now }
          ∷ []);
}
