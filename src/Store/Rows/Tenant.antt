-- ===== src/Store/Rows/Tenant.antt =====
-- Users, sessions, packages, resellers and accounts as rows: the plain reads and writes of
-- internal/store/memory.go.
use kelmor.Base.{
  ℕ, String, Bool, true, false, not, ◌&&◌, Option, none, some, List, ◌==◌, ltb, is_some, slt,
  filter, if◌then◌else◌,
}
use kelmor.Base.Table.{lookup, insert, erase, find, values, adjust, has}
use kelmor.Store.Models.{User, Session, FeatureSet, Package, Reseller, Account}
use kelmor.Store.Memory.{Memory}
use kelmor.Store.Op.{Env}
use kelmor.Store.Rows.Common.{bytes_eq}

unfoldable pub put_user : User → Memory → Memory
put_user v m = record m { users = insert v.id v m.users }

unfoldable pub user_by_id : String → Memory → Option User
user_by_id id m = lookup id m.users

unfoldable pub user_by_username : String → Memory → Option User
user_by_username key m = find (λ v. v.username == key) m.users

unfoldable pub put_session : Session → Memory → Memory
put_session v m = record m { sessions = insert v.id v m.sessions }

-- A session is good while it is not revoked and its end lies ahead.
unfoldable pub is_live_session : ℕ → List ℕ → Session → Bool
is_live_session now hash s =
    bytes_eq s.token_hash hash && (not (is_some s.revoked_at) && ltb now s.expires_at)

unfoldable pub session_by_hash : Env → List ℕ → Memory → Option Session
session_by_hash env hash m = find (is_live_session env.now hash) m.sessions

unfoldable pub revoke_session : Env → String → Memory → Memory
revoke_session env id m = elim (lookup id m.sessions) [
  | none ↦ m
  | some s ↦ record m { sessions = insert id (record s { revoked_at = some env.now }) m.sessions }
]

unfoldable pub revoke_sessions_for_user : Env → String → Memory → Memory
revoke_sessions_for_user env user_id m = record m {
  sessions =
      adjust (λ s. if s.user_id == user_id then record s { revoked_at = some env.now } else s)
        m.sessions;
}

unfoldable pub put_feature : FeatureSet → Memory → Memory
put_feature v m = record m { features = insert v.id v m.features }

unfoldable pub list_feature_sets : Memory → List FeatureSet
list_feature_sets m = values m.features

unfoldable pub put_package : Package → Memory → Memory
put_package v m = record m { packages = insert v.id v m.packages }

unfoldable pub get_package : String → Memory → Option Package
get_package id m = lookup id m.packages

-- A package goes only if no account has it; the answer says whether it went.
unfoldable pub delete_package_if_unused : String → Memory → Memory × Bool
delete_package_if_unused id m =
    if not (has id m.packages)
    then (m, false)
    else if is_some (find (λ a. a.package_id == id) m.accounts)
    then (m, false)
    else (record m { packages = erase id m.packages }, true)

unfoldable pub put_reseller : Reseller → Memory → Memory
put_reseller v m = record m { resellers = insert v.id v m.resellers }

unfoldable pub get_reseller : String → Memory → Option Reseller
get_reseller id m = lookup id m.resellers

unfoldable pub reseller_by_user : String → Memory → Option Reseller
reseller_by_user key m = find (λ v. v.user_id == key) m.resellers

unfoldable pub list_resellers : Memory → List Reseller
list_resellers m = values m.resellers

unfoldable pub put_account : Account → Memory → Memory
put_account v m = record m { accounts = insert v.id v m.accounts }

unfoldable pub get_account : String → Memory → Option Account
get_account id m = lookup id m.accounts

unfoldable pub account_by_username : String → Memory → Option Account
account_by_username key m = find (λ v. v.username == key) m.accounts

unfoldable pub drifted_accounts : Memory → List Account
drifted_accounts m =
    filter (λ a. slt a.observed_revision a.desired_revision && not (a.status == "terminated"))
      (values m.accounts)
