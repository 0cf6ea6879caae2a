-- ===== src/Roles/Expansion.antt =====
-- Whom Expand of internal/rbac/rbac.go gives a capability.
use kelmor.Base.{
  String, Bool, true, false, not, ◌&&◌, ◌||◌, ◌≡◌, refl, ap, ◌∙◌, List, [], ◌∷◌, ◌==◌, any, arith,
  Bool-cases, inl, inr, if◌then◌else◌,
}
use kelmor.Base.Table.{Table, lookup, insert, lookup-insert}
use kelmor.Roles.{
  flag, role_caps, add_all, add_roles, add_extra, expand, role_capability, has_capability, Actor,
}

flag-insert : (c k : String) (t : Table Bool) → flag c (insert k true t) ≡ (k == c || flag c t)
unfolding flag
flag-insert c k t = rw (lookup-insert k c true t) (ground arith)

flag-add_all :
    (c : String) (cs : List String) (t : Table Bool)
    → flag c (add_all cs t) ≡ (any (λ k. k == c) cs || flag c t)
unfolding add_all
flag-add_all c [] t = refl
flag-add_all c (k ∷ cs) t = ground (arith, flag-add_all c cs (insert k true t), flag-insert c k t)

flag-add_roles :
    (c : String) (rs : List String) (t : Table Bool)
    → flag c (add_roles rs t) ≡ (any (λ r. role_capability r c) rs || flag c t)
unfolding add_roles role_capability
flag-add_roles c [] t = refl
flag-add_roles c (r ∷ rs) t =
    ground (arith, flag-add_roles c rs (add_all (role_caps r) t), flag-add_all c (role_caps r) t)

-- An extra capability, without the white space around it, and not the empty one.
abbrev pub is_extra : (String → String) → String → String → Bool
is_extra trim c k = not (trim k == "") && trim k == c

or_swap : (a b d : Bool) → (a || (b || d)) ≡ ((if b then true else a) || d)
or_swap true true d = refl
or_swap true false d = refl
or_swap false true d = refl
or_swap false false d = refl

flag-add_extra :
    (trim : String → String) (c : String) (ks : List String) (t : Table Bool)
    → flag c (add_extra trim ks t) ≡ (any (is_extra trim c) ks || flag c t)
unfolding add_extra
flag-add_extra trim c [] t = refl
flag-add_extra trim c (k ∷ ks) t = elim (Bool-cases (trim k == "")) [
  | inl empty ↦ rw empty (flag-add_extra trim c ks t)
  | inr named ↦ rw named (
      flag-add_extra trim c ks (insert (trim k) true t)
      ∙ ap (λ b. any (is_extra trim c) ks || b) (flag-insert c (trim k) t)
      ∙ or_swap (any (is_extra trim c) ks) (trim k == c) (flag c t))
]

-- An actor whose capabilities are those that Expand gives for some roles and extra capabilities has
-- a capability exactly when RoleCapability grants it to one of the roles, or it is one of the extra
-- ones without the white space around it, and not the empty text.
pub has_capability-expand :
    (trim : String → String) (roles extra : List String) (a : Actor) (c : String)
    → a.capabilities ≡ expand trim roles extra
    → has_capability a c ≡ (any (is_extra trim c) extra || any (λ r. role_capability r c) roles)
unfolding has_capability expand lookup
has_capability-expand trim roles extra a c e =
    ap (flag c) e
    ∙ flag-add_extra trim c extra (add_roles roles [])
    ∙ ap (λ b. any (is_extra trim c) extra || b)
        (flag-add_roles c roles [] ∙ or_false_right (any (λ r. role_capability r c) roles))
  where
    or_false_right : (b : Bool) → (b || false) ≡ b
    or_false_right true = refl
    or_false_right false = refl
