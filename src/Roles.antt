-- ===== src/Roles.antt =====
-- Roles and capabilities: internal/rbac/rbac.go.
pub mod Expansion
use kelmor.Base.{
  String, Bool, true, false, ◌||◌, Option, none, some, List, [], ◌∷◌, ◌==◌, any, if◌then◌else◌,
}
use kelmor.Base.Table.{Table, lookup, insert}

abbrev pub all_capabilities : List String
all_capabilities =
    "server.read" ∷ "server.settings.write" ∷ "server.services.read" ∷ "server.services.restart"
    ∷ "server.firewall.read" ∷ "server.firewall.write" ∷ "accounts.read" ∷ "accounts.create"
    ∷ "accounts.modify" ∷ "accounts.suspend" ∷ "accounts.terminate" ∷ "accounts.impersonate"
    ∷ "resellers.read" ∷ "resellers.create" ∷ "resellers.modify" ∷ "packages.read"
    ∷ "packages.write" ∷ "domains.read" ∷ "domains.write" ∷ "dns.read" ∷ "dns.write"
    ∷ "websites.read" ∷ "websites.write" ∷ "applications.read" ∷ "applications.write"
    ∷ "databases.read" ∷ "databases.write" ∷ "mail.read" ∷ "mail.write" ∷ "backups.read"
    ∷ "backups.create" ∷ "backups.restore" ∷ "security.audit.read" ∷ "api_tokens.read"
    ∷ "api_tokens.write" ∷ "files.read" ∷ "files.write" ∷ "cron.read" ∷ "cron.write"
    ∷ "billing.usage.read" ∷ "accounts.export" ∷ "accounts.export_credentials" ∷ []

abbrev pub role_table : Table (List String)
role_table =
    ("root_owner", all_capabilities)
    ∷ ("server_administrator", all_capabilities)
    ∷ (
      "server_operator",
      "server.read" ∷ "server.services.read" ∷ "server.services.restart" ∷ "accounts.read"
          ∷ "packages.read" ∷ "domains.read" ∷ "dns.read" ∷ "websites.read" ∷ "security.audit.read"
          ∷ "billing.usage.read" ∷ [],
    )
    ∷ (
      "reseller",
      "accounts.read" ∷ "accounts.create" ∷ "accounts.modify" ∷ "accounts.suspend" ∷ "packages.read"
          ∷ "packages.write" ∷ "domains.read" ∷ "domains.write" ∷ "dns.read" ∷ "websites.read"
          ∷ "backups.read" ∷ "backups.create" ∷ "backups.restore" ∷ "billing.usage.read"
          ∷ "accounts.export" ∷ [],
    )
    ∷ (
      "customer_owner",
      "domains.read" ∷ "domains.write" ∷ "dns.read" ∷ "dns.write" ∷ "websites.read"
          ∷ "websites.write" ∷ "applications.read" ∷ "applications.write" ∷ "databases.read"
          ∷ "databases.write" ∷ "mail.read" ∷ "mail.write" ∷ "backups.read" ∷ "backups.create"
          ∷ "backups.restore" ∷ "files.read" ∷ "files.write" ∷ "cron.read" ∷ "cron.write"
          ∷ "api_tokens.read" ∷ "api_tokens.write" ∷ "billing.usage.read" ∷ "accounts.export" ∷ [],
    )
    ∷ (
      "customer_administrator",
      "domains.read" ∷ "domains.write" ∷ "dns.read" ∷ "dns.write" ∷ "websites.read"
          ∷ "websites.write" ∷ "applications.read" ∷ "applications.write" ∷ "databases.read"
          ∷ "databases.write" ∷ "mail.read" ∷ "mail.write" ∷ "files.read" ∷ "files.write"
          ∷ "cron.read" ∷ "cron.write" ∷ [],
    )
    ∷ (
      "customer_user",
      "domains.read" ∷ "websites.read" ∷ "mail.read" ∷ "files.read" ∷ "databases.read" ∷ "dns.read"
          ∷ [],
    )
    ∷ (
      "auditor",
      "server.read" ∷ "accounts.read" ∷ "security.audit.read" ∷ "billing.usage.read" ∷ [],
    )
    ∷ []

-- RoleCaps[role], nil for a role that is not there.
abbrev pub or_nil : Option (List String) → List String
or_nil none = []
or_nil (some caps) = caps

unfoldable pub role_caps : String → List String
role_caps role = or_nil (lookup role role_table)

pub record Actor : Type 0 where
  pub user_id : String
  pub username : String
  pub roles : List String
  pub capabilities : Table Bool
  pub account_ids : List String
  pub reseller_id : String
  pub impersonator_id : String
  pub is_server_scope : Bool

abbrev pub or_false : Option Bool → Bool
or_false none = false
or_false (some b) = b

-- A map read with a key that it may not have.
unfoldable pub flag : String → Table Bool → Bool
flag cap t = or_false (lookup cap t)

unfoldable pub has_capability : Actor → String → Bool
unfolding flag
has_capability a cap = flag cap a.capabilities

unfoldable pub can_account : Actor → String → Bool
can_account a account_id =
    if a.is_server_scope then true else any (λ id. id == account_id) a.account_ids

-- for _, c := range caps { out[c] = true }
unfoldable pub add_all : List String → Table Bool → Table Bool
add_all [] out = out
add_all (c ∷ cs) out = add_all cs (insert c true out)

unfoldable pub add_roles : List String → Table Bool → Table Bool
add_roles [] out = out
add_roles (r ∷ rs) out = add_roles rs (add_all (role_caps r) out)

-- `trim` is strings.TrimSpace.
unfoldable pub add_extra : (String → String) → List String → Table Bool → Table Bool
add_extra trim [] out = out
add_extra trim (c ∷ cs) out =
    add_extra trim cs (if trim c == "" then out else insert (trim c) true out)

unfoldable pub expand : (String → String) → List String → List String → Table Bool
expand trim roles extra = add_extra trim extra (add_roles roles [])

unfoldable pub role_capability : String → String → Bool
role_capability role capability = any (λ c. c == capability) (role_caps role)

unfoldable pub account_safe : String → Bool
account_safe capability = role_capability "customer_owner" capability
