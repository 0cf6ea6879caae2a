-- ===== src/Limits.antt =====
-- The limits of an account's package: internal/limits/limits.go, with enforceDomainLimit of
-- internal/httpserver/api.go. A limit is an int or int64, as a
-- 64-bit pattern; a limit that is not positive is no limit.
pub mod Disk
pub mod Kinds
use kelmor.Base.{
  ℕ, String, Bool, ◌||◌, Option, none, some, List, [], ◌∷◌, ◌==◌, if◌then◌else◌, add64, slt, sle,
  filter, length,
}
use kelmor.Store.Models.{Package, Domain}
use kelmor.Store.Memory.{Memory}
use kelmor.Store.Rows.Site.{list_domains}
use kelmor.Store.Rows.Tenant.{get_account, get_package}

pub record Check : Type 0 where
  pub kind : String
  pub limit : ℕ
  pub used : ℕ

unfoldable pub enforce : ℕ → ℕ → String → Option Check
enforce used limit kind =
    if sle limit 0
    then none
    else if sle limit used
    then some record { kind = kind; limit = limit; used = used }
    else none

unfoldable pub disk_would_exceed : ℕ → ℕ → ℕ → Option Check
disk_would_exceed used incoming limit =
    if sle limit 0
    then none
    else if slt limit (add64 used incoming)
    then some record { kind = "disk_bytes"; limit = limit; used = add64 used incoming }
    else none

unfoldable pub domain_kind : String → String
domain_kind typ =
    if typ == "subdomain"
    then "subdomains"
    else if typ == "alias"
    then "alias_domains"
    else "domains"

-- The types that createDomain lets through.
unfoldable pub is_domain_type : String → Bool
is_domain_type typ = typ == "primary" || (typ == "addon" || (typ == "subdomain" || typ == "alias"))

unfoldable pub domain_limit : Option Package → String → ℕ
domain_limit none typ = 0
domain_limit (some pkg) typ =
    if typ == "subdomain"
    then pkg.subdomains
    else if typ == "alias"
    then pkg.alias_domains
    else pkg.domains

unfoldable pub domain_matches_kind : String → String → Bool
domain_matches_kind have want_kind =
    if want_kind == "subdomains"
    then have == "subdomain"
    else if want_kind == "alias_domains"
    then have == "alias"
    else have == "primary" || (have == "addon" || have == "")

-- Over the in-memory store.
unfoldable pub count_domains : String → String → Memory → ℕ
count_domains account_id typ m =
    length (filter (λ d. domain_matches_kind d.type typ) (list_domains account_id m))

unfoldable pub account_package : String → Memory → Option Package
account_package account_id m = elim (get_account account_id m) [
  | none ↦ none
  | some acc ↦ if acc.package_id == "" then none else get_package acc.package_id m
]

unfoldable pub enforce_domain_limit : String → String → Memory → Option Check
enforce_domain_limit account_id typ m =
    let kind = domain_kind typ in
    enforce (count_domains account_id kind m) (domain_limit (account_package account_id m) typ) kind
