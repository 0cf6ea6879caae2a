-- ===== src/Base/Table.antt =====
-- A Go map with text keys, as the list of its entries. The order of the list stands for the
-- order in which a `range` loop meets the entries, which Go leaves open: what is proved for every
-- list holds for every order.
pub mod Pairwise
pub mod Retain
use mathlib.Core.Path.{◌≡◌, refl, sym, ap, subst, subst₂}
use mathlib.Core.Logic.{◌⊎◌, inl, inr, Lift}
use mathlib.Core.Bool.{Bool, true, false, not}
use mathlib.Core.Option.{Option, none, some, some-injective}
use mathlib.Core.List.{List, [], ◌∷◌}
use Prim.Native.String.{String}
use native.Mathlib.Omega.{arith}
use text.Mathlib.TextEquality.{eq_iff}
use text.Mathlib.TextPositions.{eq_refl}
use kelmor.Base.Tests.{◌==◌, if◌then◌else◌, is_some, Bool-cases, eq→≡}

abbrev pub Table {ℓ} : Type ℓ → Type ℓ
Table V = List (String × V)

module _ {ℓ} {V : Type ℓ} where
  -- m[k], none where the map has no entry
  unfoldable pub lookup : String → Table V → Option V
  lookup k [] = none
  lookup k ((j, v) ∷ t) = if j == k then some v else lookup k t

  abbrev pub has : String → Table V → Bool
  has k t = is_some (lookup k t)

  -- m[k] = v
  unfoldable pub insert : String → V → Table V → Table V
  insert k v [] = (k, v) ∷ []
  insert k v ((j, w) ∷ t) = let rest = insert k v t in if j == k then (k, v) ∷ t else (j, w) ∷ rest

  -- The entries that a test keeps; the others are deleted in one loop over the map.
  unfoldable pub retain : (String → V → Bool) → Table V → Table V
  retain p [] = []
  retain p ((j, v) ∷ t) = let rest = retain p t in if p j v then (j, v) ∷ rest else rest

  -- delete(m, k)
  unfoldable pub erase : String → Table V → Table V
  unfolding retain
  erase k t = retain (λ j v. not (j == k)) t

  -- The first entry that a loop finds to meet a test.
  unfoldable pub find : (V → Bool) → Table V → Option V
  find p [] = none
  find p ((j, v) ∷ t) = let rest = find p t in if p v then some v else rest

  -- for _, v := range m
  unfoldable pub values : Table V → List V
  values [] = []
  values ((j, v) ∷ t) = v ∷ values t

  -- An update of every value in place.
  unfoldable pub adjust : (V → V) → Table V → Table V
  adjust f [] = []
  adjust f ((j, v) ∷ t) = (j, f v) ∷ adjust f t

  -- Every entry, under its key, meets a predicate.
  abbrev pub Entries {κ} : (String → V → Type κ) → Table V → Type κ
  Entries P [] = Unit
  Entries P ((j, v) ∷ t) = P j v × Entries P t

  -- The entry stands in the map.
  abbrev pub Occurs : String → V → Table V → Type ℓ
  Occurs k v [] = Lift ⊥
  Occurs k v ((j, w) ∷ t) = ((j ≡ k) × (w ≡ v)) ⊎ Occurs k v t

  pub lookup-insert :
      (k j : String) (v : V) (t : Table V)
      → lookup j (insert k v t) ≡ (if k == j then some v else lookup j t)
  unfolding lookup insert
  lookup-insert k j v [] = refl
  lookup-insert k j v ((i, w) ∷ t) =
      ground (arith, eq_iff k j, eq_iff i k, eq_iff i j, lookup-insert k j v t)

  pub lookup-erase :
      (k j : String) (t : Table V) → lookup j (erase k t) ≡ (if k == j then none else lookup j t)
  unfolding lookup erase
  lookup-erase k j [] = ground arith
  lookup-erase k j ((i, w) ∷ t) =
      ground (arith, eq_iff k j, eq_iff i k, eq_iff i j, lookup-erase k j t)

  pub lookup-retain :
      (p : String → V → Bool) (k : String) (t : Table V) {v : V}
      → lookup k t ≡ some v
      → p k v ≡ true
      → lookup k (retain p t) ≡ some v
  unfolding lookup retain
  lookup-retain p k [] e h = cc
  lookup-retain p k ((i, w) ∷ t) {v} e h = elim (Bool-cases (i == k)) [
    | inl hit ↦
        let same : p i w ≡ true =
          subst₂ (λ a b. p a b ≡ true) (sym (eq→≡ i k hit)) (sym (some-injective w v (rw hit at e)))
            h in
        rw (same, hit) (rw hit at e)
    | inr miss ↦
        let ih : lookup k (retain p t) ≡ some v = lookup-retain p k t (rw miss at e) h in
        elim (Bool-cases (p i w)) [ inl y ↦ rw (y, miss) ih | inr n ↦ rw n ih ]
  ]

module _ {ℓ κ} {V : Type ℓ} (P : String → V → Type κ) where
  pub insert-Entries :
      (k : String) (v : V) (t : Table V) → P k v → Entries P t → Entries P (insert k v t)
  unfolding insert
  insert-Entries k v [] h all = (h, tt)
  insert-Entries k v ((j, w) ∷ t) h all =
      elim (j == k) as (λ b. Entries P (if b then (k, v) ∷ t else (j, w) ∷ insert k v t)) [
        | true ↦ (h, all.1)
        | false ↦ (all.0, insert-Entries k v t h all.1)
      ]

  pub retain-Entries : (p : String → V → Bool) (t : Table V) → Entries P t → Entries P (retain p t)
  unfolding retain
  retain-Entries p [] all = tt
  retain-Entries p ((j, w) ∷ t) all =
      elim (p j w) as (λ b. Entries P (if b then (j, w) ∷ retain p t else retain p t)) [
        | true ↦ (all.0, retain-Entries p t all.1)
        | false ↦ retain-Entries p t all.1
      ]

  pub lookup-Entries :
      (k : String) (t : Table V) {v : V} → Entries P t → lookup k t ≡ some v → P k v
  unfolding lookup
  lookup-Entries k [] all e = cc
  lookup-Entries k ((j, w) ∷ t) {v} all e = elim (Bool-cases (j == k)) [
    | inl hit ↦ subst₂ P (eq→≡ j k hit) (some-injective w v (rw hit at e)) all.0
    | inr miss ↦ lookup-Entries k t all.1 (rw miss at e)
  ]

pub Entries-map {ℓ κ κ'} :
    {V : Type ℓ} (P : String → V → Type κ) (Q : String → V → Type κ') (t : Table V)
    → ((k : String) (v : V) → P k v → Q k v)
    → Entries P t
    → Entries Q t
Entries-map P Q [] f all = tt
Entries-map P Q ((k, v) ∷ t) f all = (f k v all.0, Entries-map P Q t f all.1)

module _ {ℓ} {V : Type ℓ} where
  -- Each key has one entry, as in every Go map.
  abbrev pub Distinct : Table V → Type ℓ
  Distinct [] = Unit
  Distinct ((j, v) ∷ t) = (lookup j t ≡ none) × Distinct t

  pub Occurs-Entries {κ} :
      (P : String → V → Type κ) (k : String) (t : Table V) {v : V}
      → Entries P t
      → Occurs k v t
      → P k v
  Occurs-Entries P k [] all o = absurd o.lower
  Occurs-Entries P k ((j, w) ∷ t) all (inl e) = subst₂ P e.0 e.1 all.0
  Occurs-Entries P k ((j, w) ∷ t) all (inr o) = Occurs-Entries P k t all.1 o

  pub lookup-Occurs :
      (k : String) (t : Table V) {v : V} → Distinct t → Occurs k v t → lookup k t ≡ some v
  unfolding lookup
  lookup-Occurs k [] d o = absurd o.lower
  lookup-Occurs k ((j, w) ∷ t) d (inl e) = rw (e.0, eq_refl k) (ap some e.1)
  lookup-Occurs k ((j, w) ∷ t) {v} d (inr o) = elim (Bool-cases (j == k)) [
    | inl hit ↦
        let found : lookup k t ≡ some v = lookup-Occurs k t d.1 o in
        let gone : lookup k t ≡ none = subst (λ a. lookup a t ≡ none) (eq→≡ j k hit) d.0 in cc
    | inr miss ↦ rw miss (lookup-Occurs k t d.1 o)
  ]

  pub insert-Distinct : (k : String) (v : V) (t : Table V) → Distinct t → Distinct (insert k v t)
  unfolding insert lookup
  insert-Distinct k v [] d = (refl, tt)
  insert-Distinct k v ((j, w) ∷ t) d = elim (Bool-cases (j == k)) [
    | inl hit ↦ rw hit (subst (λ a. lookup a t ≡ none) (eq→≡ j k hit) d.0, d.1)
    | inr miss ↦ rw miss (
      ground (arith, lookup-insert k j v t, eq_iff j k, eq_iff k j, d.0),
      insert-Distinct k v t d.1,
    )
  ]
