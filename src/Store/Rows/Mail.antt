-- ===== src/Store/Rows/Mail.antt =====
-- Mail domains, mailboxes and aliases as rows (internal/store/memory.go).
use kelmor.Base.{String, Option, List, ◌==◌}
use kelmor.Base.Table.{lookup, insert, erase, find}
use kelmor.Store.Models.{MailDomain, Mailbox, MailAlias}
use kelmor.Store.Memory.{Memory}
use kelmor.Store.Rows.Common.{listed}

unfoldable pub put_mail_domain : MailDomain → Memory → Memory
put_mail_domain v m = record m { mail_dom = insert v.id v m.mail_dom }

unfoldable pub get_mail_domain : String → Memory → Option MailDomain
get_mail_domain id m = lookup id m.mail_dom

unfoldable pub mail_domain_by_domain : String → Memory → Option MailDomain
mail_domain_by_domain key m = find (λ v. v.domain_id == key) m.mail_dom

unfoldable pub list_mail_domains : String → Memory → List MailDomain
list_mail_domains account_id m = listed account_id (λ v. v.account_id) m.mail_dom

unfoldable pub put_mailbox : Mailbox → Memory → Memory
put_mailbox v m = record m { mailboxes = insert v.id v m.mailboxes }

unfoldable pub get_mailbox : String → Memory → Option Mailbox
get_mailbox id m = lookup id m.mailboxes

unfoldable pub list_mailboxes : String → Memory → List Mailbox
list_mailboxes account_id m = listed account_id (λ v. v.account_id) m.mailboxes

unfoldable pub delete_mailbox : String → Memory → Memory
delete_mailbox id m = record m { mailboxes = erase id m.mailboxes }

unfoldable pub put_mail_alias : MailAlias → Memory → Memory
put_mail_alias v m = record m { aliases = insert v.id v m.aliases }

unfoldable pub get_mail_alias : String → Memory → Option MailAlias
get_mail_alias id m = lookup id m.aliases

unfoldable pub list_mail_aliases : String → Memory → List MailAlias
list_mail_aliases account_id m = listed account_id (λ v. v.account_id) m.aliases

unfoldable pub delete_mail_alias : String → Memory → Memory
delete_mail_alias id m = record m { aliases = erase id m.aliases }
