-- ===== src/Store/Rows/Site.antt =====
-- Domains, sites, applications and databases as rows (internal/store/memory.go).
use kelmor.Base.{String, Bool, ◌&&◌, Option, List, ◌==◌, is_some, slt, if◌then◌else◌}
use kelmor.Base.Table.{lookup, insert, erase, find}
use kelmor.Store.Models.{Domain, Website, Application, HostedDatabase, DatabaseUser}
use kelmor.Store.Memory.{Memory}
use kelmor.Store.Rows.Common.{listed}

unfoldable pub domain_taken : String → Memory → Bool
domain_taken ascii m = is_some (find (λ d. d.ascii == ascii) m.domains)

-- An active domain is stored as observed up to what is desired.
unfoldable pub put_domain : Domain → Memory → Memory
put_domain d m = record m {
  domains =
      insert d.id
        (if d.status == "active" && slt d.observed_revision d.desired_revision
          then record d { observed_revision = d.desired_revision }
          else d)
        m.domains;
}

unfoldable pub get_domain : String → Memory → Option Domain
get_domain id m = lookup id m.domains

unfoldable pub list_domains : String → Memory → List Domain
list_domains account_id m = listed account_id (λ v. v.account_id) m.domains

unfoldable pub put_website : Website → Memory → Memory
put_website v m = record m { websites = insert v.id v m.websites }

unfoldable pub get_website : String → Memory → Option Website
get_website id m = lookup id m.websites

unfoldable pub list_websites : String → Memory → List Website
list_websites account_id m = listed account_id (λ v. v.account_id) m.websites

unfoldable pub put_app : Application → Memory → Memory
put_app v m = record m { apps = insert v.id v m.apps }

unfoldable pub get_app : String → Memory → Option Application
get_app id m = lookup id m.apps

unfoldable pub list_apps : String → Memory → List Application
list_apps account_id m = listed account_id (λ v. v.account_id) m.apps

unfoldable pub put_db : HostedDatabase → Memory → Memory
put_db v m = record m { dbs = insert v.id v m.dbs }

unfoldable pub get_db : String → Memory → Option HostedDatabase
get_db id m = lookup id m.dbs

unfoldable pub list_dbs : String → Memory → List HostedDatabase
list_dbs account_id m = listed account_id (λ v. v.account_id) m.dbs

unfoldable pub delete_app : String → Memory → Memory
delete_app id m = record m { apps = erase id m.apps }

unfoldable pub delete_db : String → Memory → Memory
delete_db id m = record m { dbs = erase id m.dbs }

unfoldable pub put_db_user : DatabaseUser → Memory → Memory
put_db_user v m = record m { db_users = insert v.id v m.db_users }

unfoldable pub list_db_users : String → Memory → List DatabaseUser
list_db_users account_id m = listed account_id (λ v. v.account_id) m.db_users
