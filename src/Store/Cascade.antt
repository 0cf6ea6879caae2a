-- ===== src/Store/Cascade.antt =====
-- Deletions that take dependent rows along: DeleteWebsite, DeleteDomain and PurgeAccount of
-- internal/store/memory.go. A `range` loop over a map is a recursion over its entries as they
-- were when the loop began; Go does not meet an entry again that the loop has deleted.
pub mod Loops
pub mod Domain
use kelmor.Base.{
  String, Bool, false, not, ◌&&◌, ◌||◌, Option, none, some, List, [], ◌∷◌, ◌==◌, if◌then◌else◌,
  is_some, any,
}
use kelmor.Base.Table.{Table, lookup, erase, retain, find}
use kelmor.Store.Models.{User, Account, Website, MailDomain, DnsZone}
use kelmor.Store.Memory.{Memory}
use kelmor.Store.Rows.Site.{list_domains, list_websites, list_apps, list_dbs, delete_app, delete_db}

-- A website goes with its applications.
unfoldable pub delete_website : String → Memory → Memory
delete_website id m = record m {
  apps = retain (λ aid a. not (a.website_id == id)) m.apps;
  websites = erase id m.websites;
}

unfoldable pub delete_sites : String → Table Website → Memory → Memory
delete_sites id [] m = m
delete_sites id ((wid, w) ∷ t) m =
    delete_sites id t (if w.domain_id == id then delete_website wid m else m)

-- The keys of the domain's mail domains.
unfoldable pub mail_ids : String → Table MailDomain → List String
mail_ids id [] = []
mail_ids id ((mid, md) ∷ t) =
    let rest = mail_ids id t in if md.domain_id == id then mid ∷ rest else rest

-- A mail domain's mailboxes and aliases.
unfoldable pub delete_mail_rows : String → Memory → Memory
delete_mail_rows mid m = record m {
  mailboxes = retain (λ bid mb. not (mb.domain_id == mid)) m.mailboxes;
  aliases = retain (λ aid al. not (al.domain_id == mid)) m.aliases;
}

unfoldable pub delete_mail : List String → Memory → Memory
delete_mail [] m = m
delete_mail (mid ∷ mids) m = delete_mail mids (delete_mail_rows mid m)

unfoldable pub drop_mail_domains : String → Memory → Memory
drop_mail_domains id m = record m {
  mail_dom = retain (λ mid md. not (md.domain_id == id)) m.mail_dom;
}

-- A zone goes with its records.
unfoldable pub delete_zone : String → Memory → Memory
delete_zone zid m = record m {
  records = retain (λ rid r. not (r.zone_id == zid)) m.records;
  zones = erase zid m.zones;
}

unfoldable pub delete_zones : String → Table DnsZone → Memory → Memory
delete_zones id [] m = m
delete_zones id ((zid, z) ∷ t) m =
    delete_zones id t (if z.domain_id == id then delete_zone zid m else m)

unfoldable pub delete_domain : String → Memory → Memory
delete_domain id m =
    let sites = delete_sites id m.websites m in
    let mail = delete_mail (mail_ids id sites.mail_dom) (drop_mail_domains id sites) in
    let zones = delete_zones id mail.zones mail in record zones { domains = erase id zones.domains }

-- A deletion for each row of a list.
unfoldable pub for_each {ℓ} : {V : Type ℓ} → (V → Memory → Memory) → List V → Memory → Memory
for_each f [] m = m
for_each f (v ∷ vs) m = for_each f vs (f v m)

-- The rows that the account alone has.
unfoldable pub purge_rows : String → Memory → Memory
purge_rows account_id m = record m {
  db_users = retain (λ id v. not (v.account_id == account_id)) m.db_users;
  certs = retain (λ id v. not (v.account_id == account_id)) m.certs;
  backups = retain (λ id v. not (v.account_id == account_id)) m.backups;
  restores = retain (λ id v. not (v.account_id == account_id)) m.restores;
  crons = retain (λ id v. not (v.account_id == account_id)) m.crons;
  ssh_keys = retain (λ id v. not (v.account_id == account_id)) m.ssh_keys;
  ftps = retain (λ id v. not (v.account_id == account_id)) m.ftps;
  usage = erase account_id m.usage;
  members = erase account_id m.members;
  accounts = erase account_id m.accounts;
}

unfoldable pub has_other_role : Option User → Bool
has_other_role none = false
has_other_role (some u) = any (λ r. not (r == "") && not (r == "customer_owner")) u.roles

unfoldable pub owner_still_referenced : String → Memory → Bool
owner_still_referenced user_id m =
    is_some (find (λ a. a.owner_user_id == user_id) m.accounts)
    || (is_some (find (λ r. r.user_id == user_id) m.resellers)
        || has_other_role (lookup user_id m.users))

-- An owner that nothing else refers to goes with their sessions and tokens.
unfoldable pub purge_owner : String → Memory → Memory
purge_owner user_id m =
    if not (user_id == "") && not (owner_still_referenced user_id m)
    then record m {
      sessions = retain (λ id s. not (s.user_id == user_id)) m.sessions;
      tokens = retain (λ id t. not (t.user_id == user_id)) m.tokens;
      users = erase user_id m.users;
    }
    else m

-- The part of PurgeAccount that runs for an account that is there.
unfoldable pub purge : String → Account → Memory → Memory
purge account_id acc m =
    let m₁ = for_each (λ d. delete_domain d.id) (list_domains account_id m) m in
    let m₂ = for_each (λ w. delete_website w.id) (list_websites account_id m₁) m₁ in
    let m₃ = for_each (λ a. delete_app a.id) (list_apps account_id m₂) m₂ in
    let m₄ = for_each (λ d. delete_db d.id) (list_dbs account_id m₃) m₃ in
    purge_owner acc.owner_user_id (purge_rows account_id m₄)

-- PurgeAccount takes the mutex for each deletion and once more for the rows: this is its effect when
-- no other caller comes between.
unfoldable pub purge_account : String → Memory → Memory
purge_account account_id m = elim (lookup account_id m.accounts) [
  | none ↦ m
  | some acc ↦ purge account_id acc m
]
