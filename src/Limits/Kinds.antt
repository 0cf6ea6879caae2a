-- ===== src/Limits/Kinds.antt =====
-- The kinds of domains that internal/limits/limits.go counts.
use kelmor.Base.{
  refl, ◌⊎◌, String, ◌≡◌, true, false, arith, ◌==◌, eq_iff, ◌||◌, Bool-cases, inl, inr,
}
use kelmor.Limits.{domain_kind, domain_matches_kind, is_domain_type}

data Kind (t : String) : Type 0 where
  subdomain : (t == "subdomain") ≡ true → domain_kind t ≡ "subdomains" → Kind t
  alias :
      (t == "subdomain") ≡ false → (t == "alias") ≡ true → domain_kind t ≡ "alias_domains" → Kind t
  plain : (t == "subdomain") ≡ false → (t == "alias") ≡ false → domain_kind t ≡ "domains" → Kind t

domain_kind_lem : (t : String) → Kind t
unfolding domain_kind
domain_kind_lem t = elim (Bool-cases (t == "subdomain")) [
  | inl y ↦ subdomain y (rw y refl)
  | inr n ↦ elim (Bool-cases (t == "alias")) [
    | inl y ↦ alias n y (rw (n, y) refl)
    | inr p ↦ plain n p (rw (n, p) refl)
  ]
]

apart : (t a b : String) → (a == b) ≡ false → (t == a) ≡ true → (t == b) ≡ false
apart t a b d e = ground (arith, eq_iff t a, eq_iff t b, eq_iff a b)

no_plain :
    (a t : String)
    → (a == "primary") ≡ false
    → (a == "addon") ≡ false
    → (a == "") ≡ false
    → (t == a) ≡ true
    → (t == "primary" || (t == "addon" || t == "")) ≡ false
no_plain a t p d e h =
    ground (arith, apart t a "primary" p h, apart t a "addon" d h, apart t a "" e h)

domain_matches_kind_lem :
    (have kind : String)
    → is_domain_type have ≡ true
    → (kind ≡ "subdomains") ⊎ (kind ≡ "alias_domains") ⊎ (kind ≡ "domains")
    → domain_matches_kind have kind ≡ (domain_kind have == kind)
unfolding domain_matches_kind is_domain_type
domain_matches_kind_lem have kind h (inl k) = elim (domain_kind_lem have) [
  | subdomain y e ↦ rw (k, e, y) refl
  | alias n y e ↦ rw (k, e, n) refl
  | plain n p e ↦ rw (k, e, n) refl
]
domain_matches_kind_lem have kind h (inr (inl k)) = elim (domain_kind_lem have) [
  | subdomain y e ↦ rw (k, e) (apart have "subdomain" "alias" refl y)
  | alias n y e ↦ rw (k, e, y) refl
  | plain n p e ↦ rw (k, e, p) refl
]
domain_matches_kind_lem have kind h (inr (inr k)) = elim (domain_kind_lem have) [
  | subdomain y e ↦ rw (k, e) (no_plain "subdomain" have refl refl refl y)
  | alias n y e ↦ rw (k, e) (no_plain "alias" have refl refl refl y)
  | plain n p e ↦ rw (k, e) (ground arith)
]

domain_kind_cases :
    (t : String)
    → (domain_kind t ≡ "subdomains")
      ⊎ (domain_kind t ≡ "alias_domains")
      ⊎ (domain_kind t ≡ "domains")
domain_kind_cases t = elim (domain_kind_lem t) [
  | subdomain y e ↦ inl e
  | alias n y e ↦ inr (inl e)
  | plain n p e ↦ inr (inr e)
]

-- A domain of a type that createDomain lets through is counted towards the limit of another type
-- just if both types have the same kind.
pub domain_matches_kind-domain_kind :
    (have typ : String)
    → is_domain_type have ≡ true
    → domain_matches_kind have (domain_kind typ) ≡ (domain_kind have == domain_kind typ)
domain_matches_kind-domain_kind have typ h =
    domain_matches_kind_lem have (domain_kind typ) h (domain_kind_cases typ)
