-- ===== src/Store/Members.antt =====
-- Who belongs to an account: unique, AddMember and AccountsForUser of internal/store/memory.go.
pub mod Unique
use kelmor.Base.{
  String, Bool, none, some, List, [], ◌∷◌, ◌++◌, map, ◌==◌, if◌then◌else◌, any, filter,
}
use kelmor.Base.Table.{Table, lookup, insert, values}
use kelmor.Store.Models.{Account}
use kelmor.Store.Memory.{Memory}

abbrev pub holds : String → List String → Bool
holds s seen = any (λ t. t == s) seen

unfoldable pub unique_from : List String → List String → List String
unique_from seen [] = []
unique_from seen (v ∷ vs) =
    let rest = unique_from (if holds v seen then seen else v ∷ seen) vs in
    if holds v seen then rest else v ∷ rest

-- Each text once, in the order of its first occurrence.
unfoldable pub unique : List String → List String
unfolding unique_from
unique vs = unique_from [] vs

-- m[k] of a map of lists; a missing entry reads as the empty list.
abbrev pub row_of : String → Table (List String) → List String
row_of k t = elim (lookup k t) [ none ↦ [] | some l ↦ l ]

unfoldable pub add_member : String → String → Memory → Memory
add_member account_id user_id m = record m {
  members = insert account_id (row_of account_id m.members ++ (user_id ∷ [])) m.members;
}

-- The accounts whose member list has the user, once for each time it has.
unfoldable pub member_rows : String → Table (List String) → List String
member_rows user_id [] = []
member_rows user_id ((aid, users) ∷ t) =
    map (λ u. aid) (filter (λ u. u == user_id) users) ++ member_rows user_id t

unfoldable pub owned_accounts : String → Table Account → List String
owned_accounts user_id t = map (λ a. a.id) (filter (λ a. a.owner_user_id == user_id) (values t))

unfoldable pub accounts_for_user : String → Memory → List String
accounts_for_user user_id m =
    unique (member_rows user_id m.members ++ owned_accounts user_id m.accounts)
