-- ===== src/Store/Members/Unique.antt =====
-- What unique of internal/store/memory.go keeps of a list.
use kelmor.Base.{
  String, Bool, ◌≡◌, refl, ap, true, not, ◌&&◌, List, [], ◌∷◌, arith, ◌==◌, Bool-cases, inl, inr,
  eq_iff, eq_refl,
}
use kelmor.Store.Members.{holds, unique_from, unique}

-- No text stands twice.
unfoldable pub is_distinct : List String → Bool
is_distinct [] = true
is_distinct (v ∷ vs) = let rest = is_distinct vs in not (holds v vs) && rest

holds-eq : (v s : String) (l : List String) → (v == s) ≡ true → holds v l ≡ holds s l
holds-eq v s l e = ap (λ x. holds x l) ((eq_iff v s).0 e)

unique_from-holds :
    (s : String) (vs seen : List String)
    → holds s (unique_from seen vs) ≡ (holds s vs && not (holds s seen))
unfolding unique_from
unique_from-holds s [] seen = ground arith
unique_from-holds s (v ∷ vs) seen = elim (Bool-cases (holds v seen)) [
  | inl old ↦ elim (Bool-cases (v == s)) [
    | inl y ↦ ground (arith, unique_from-holds s vs seen, holds-eq v s seen y)
    | inr n ↦ ground (arith, unique_from-holds s vs seen)
  ]
  | inr new ↦ elim (Bool-cases (v == s)) [
    | inl y ↦ ground (arith, holds-eq v s seen y)
    | inr n ↦ ground (arith, unique_from-holds s vs (v ∷ seen))
  ]
]

unique_from-is_distinct : (vs seen : List String) → is_distinct (unique_from seen vs) ≡ true
unfolding unique_from is_distinct
unique_from-is_distinct [] seen = refl
unique_from-is_distinct (v ∷ vs) seen = elim (Bool-cases (holds v seen)) [
  | inl old ↦ ground (arith, unique_from-is_distinct vs seen)
  | inr new ↦
      ground
        (arith, unique_from-is_distinct vs (v ∷ seen), unique_from-holds v vs (v ∷ seen), eq_refl v)
]

-- The list of unique has no text twice, and has just the texts of the list it is given.
pub unique-is_distinct :
    (vs : List String) (s : String)
    → (is_distinct (unique vs) ≡ true) × (holds s (unique vs) ≡ holds s vs)
unfolding unique
unique-is_distinct vs s = (unique_from-is_distinct vs [], ground (arith, unique_from-holds s vs []))
