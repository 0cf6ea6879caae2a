-- ===== src/Store/Commit/Post.antt =====
-- Mail domains, mailboxes and aliases (internal/store/async_atomic.go).
use kelmor.Base.{String, Option, none, some, [], ◌∷◌, if◌then◌else◌}
use kelmor.Base.Table.{lookup, insert, erase, has}
use kelmor.Store.Models.{MailDomain, Mailbox, MailAlias, Job, AuditEvent}
use kelmor.Store.Memory.{Memory}
use kelmor.Store.Op.{StoreError, errorf, Result, Env}
use kelmor.Store.Commit.{owned_by, commit_async_mutation}

unfoldable pub upsert_mail_domain_with_job_check : Option MailDomain → Memory → Option StoreError
upsert_mail_domain_with_job_check none m = some (errorf "mail domain account is missing" [])
upsert_mail_domain_with_job_check (some domain) m =
    if has domain.account_id m.accounts
    then none
    else some (errorf "mail domain account is missing" [])

abbrev pub upsert_mail_domain_with_job_change : Option MailDomain → Memory → Memory
upsert_mail_domain_with_job_change none m = m
upsert_mail_domain_with_job_change (some domain) m = record m {
  mail_dom = insert domain.id domain m.mail_dom;
}

unfoldable pub upsert_mail_domain_with_job :
    Env → Option MailDomain → Option Job → AuditEvent → Memory → Memory × Result Job
upsert_mail_domain_with_job env domain job audit =
    commit_async_mutation env job audit (upsert_mail_domain_with_job_check domain)
      (upsert_mail_domain_with_job_change domain)

unfoldable pub upsert_mailbox_with_job_check : Option Mailbox → Memory → Option StoreError
upsert_mailbox_with_job_check none m = some (errorf "mailbox is required" [])
upsert_mailbox_with_job_check (some mailbox) m =
    if owned_by (λ p. p.account_id) mailbox.account_id (lookup mailbox.domain_id m.mail_dom)
    then none
    else some (errorf "mail domain %q not found" (mailbox.domain_id ∷ []))

abbrev pub upsert_mailbox_with_job_change : Option Mailbox → Memory → Memory
upsert_mailbox_with_job_change none m = m
upsert_mailbox_with_job_change (some mailbox) m = record m {
  mailboxes = insert mailbox.id mailbox m.mailboxes;
}

unfoldable pub upsert_mailbox_with_job :
    Env → Option Mailbox → Option Job → AuditEvent → Memory → Memory × Result Job
upsert_mailbox_with_job env mailbox job audit =
    commit_async_mutation env job audit (upsert_mailbox_with_job_check mailbox)
      (upsert_mailbox_with_job_change mailbox)

unfoldable pub delete_mailbox_with_job_check : String → String → Memory → Option StoreError
delete_mailbox_with_job_check id account_id m =
    if owned_by (λ p. p.account_id) account_id (lookup id m.mailboxes)
    then none
    else some (errorf "mailbox %q not found" (id ∷ []))

unfoldable pub delete_mailbox_with_job :
    Env → String → String → Option Job → AuditEvent → Memory → Memory × Result Job
delete_mailbox_with_job env id account_id job audit =
    commit_async_mutation env job audit (delete_mailbox_with_job_check id account_id)
      (λ m. record m { mailboxes = erase id m.mailboxes })

unfoldable pub upsert_mail_alias_with_job_check : Option MailAlias → Memory → Option StoreError
upsert_mail_alias_with_job_check none m = some (errorf "mail alias is required" [])
upsert_mail_alias_with_job_check (some alias) m =
    if owned_by (λ p. p.account_id) alias.account_id (lookup alias.domain_id m.mail_dom)
    then none
    else some (errorf "mail domain %q not found" (alias.domain_id ∷ []))

abbrev pub upsert_mail_alias_with_job_change : Option MailAlias → Memory → Memory
upsert_mail_alias_with_job_change none m = m
upsert_mail_alias_with_job_change (some alias) m = record m {
  aliases = insert alias.id alias m.aliases;
}

unfoldable pub upsert_mail_alias_with_job :
    Env → Option MailAlias → Option Job → AuditEvent → Memory → Memory × Result Job
upsert_mail_alias_with_job env alias job audit =
    commit_async_mutation env job audit (upsert_mail_alias_with_job_check alias)
      (upsert_mail_alias_with_job_change alias)

unfoldable pub delete_mail_alias_with_job_check : String → String → Memory → Option StoreError
delete_mail_alias_with_job_check id account_id m =
    if owned_by (λ p. p.account_id) account_id (lookup id m.aliases)
    then none
    else some (errorf "mail alias %q not found" (id ∷ []))

unfoldable pub delete_mail_alias_with_job :
    Env → String → String → Option Job → AuditEvent → Memory → Memory × Result Job
delete_mail_alias_with_job env id account_id job audit =
    commit_async_mutation env job audit (delete_mail_alias_with_job_check id account_id)
      (λ m. record m { aliases = erase id m.aliases })
