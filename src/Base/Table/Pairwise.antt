-- ===== src/Base/Table/Pairwise.antt =====
-- A relation that holds between any two entries of a map, such as having different names.
use mathlib.Core.Path.{◌≡◌, refl, sym, subst}
use mathlib.Core.Logic.{inl, inr}
use mathlib.Core.Bool.{Bool, true, false}
use mathlib.Core.Option.{none, some}
use mathlib.Core.List.{[], ◌∷◌}
use Prim.Native.String.{String}
use kelmor.Base.Tests.{◌==◌, Bool-cases, eq→≡}
use kelmor.Base.Table.{
  Table, Entries, Entries-map, insert-Entries, retain-Entries, insert, retain, find, lookup,
  Distinct, Occurs, Occurs-Entries,
}

module _ {ℓ κ} {V : Type ℓ} (R : V → V → Type κ) where
  abbrev pub Pairwise : Table V → Type (ℓ ⊔ κ)
  Pairwise [] = Unit
  Pairwise ((k, v) ∷ t) = Entries (λ j w. R v w) t × Pairwise t

  -- An entry for a key that is new, or that stands anywhere.
  pub insert-Pairwise :
      (k : String) (v : V) (t : Table V)
      → ((a b : V) → R a b → R b a)
      → Entries (λ j w. R w v) t
      → Pairwise t
      → Pairwise (insert k v t)
  unfolding insert
  insert-Pairwise k v [] s h p = (tt, tt)
  insert-Pairwise k v ((j, w) ∷ t) s h p = elim (Bool-cases (j == k)) [
    | inl hit ↦ rw hit (Entries-map _ _ t (λ i u r. s u v r) h.1, p.1)
    | inr miss ↦
        rw miss (insert-Entries (λ i u. R w u) k v t h.0 p.0, insert-Pairwise k v t s h.1 p.1)
  ]

  pub retain-Pairwise : (p : String → V → Bool) (t : Table V) → Pairwise t → Pairwise (retain p t)
  unfolding retain
  retain-Pairwise p [] h = tt
  retain-Pairwise p ((j, w) ∷ t) h = elim (Bool-cases (p j w)) [
    | inl keep ↦ rw keep (retain-Entries (λ i u. R w u) p t h.0, retain-Pairwise p t h.1)
    | inr drop ↦ rw drop (retain-Pairwise p t h.1)
  ]

module _ {ℓ} {V : Type ℓ} (p : V → Bool) where
  pub find-none : (t : Table V) → find p t ≡ none → Entries (λ k v. p v ≡ false) t
  unfolding find
  find-none [] e = tt
  find-none ((k, v) ∷ t) e = elim (Bool-cases (p v)) [
    | inl hit ↦ cc (hit)
    | inr miss ↦ (miss, find-none t (rw miss at e))
  ]

  -- What a search had missed and was then put in is what it finds.
  pub find-insert :
      (k : String) (v : V) (t : Table V)
      → find p t ≡ none
      → p v ≡ true
      → find p (insert k v t) ≡ some v
  unfolding find insert
  find-insert k v [] e h = rw h
  find-insert k v ((j, w) ∷ t) e h = elim (Bool-cases (p w)) [
    | inl hit ↦ cc (hit)
    | inr miss ↦ elim (Bool-cases (j == k)) [
      | inl same ↦ rw (same, h)
      | inr other ↦ rw (other, miss) (find-insert k v t (rw miss at e) h)
    ]
  ]

-- Where no two entries both meet a test, the one that does is what a search finds.
pub find-Occurs {ℓ κ} :
    {V : Type ℓ} (R : V → V → Type κ) (p : V → Bool) (k : String) (t : Table V) {v : V}
    → ((a b : V) → R a b → p a ≡ true → p b ≡ true → ⊥)
    → Pairwise R t
    → Occurs k v t
    → p v ≡ true
    → find p t ≡ some v
unfolding find
find-Occurs R p k [] s h o y = absurd o.lower
find-Occurs R p k ((j, w) ∷ t) s h (inl e) y =
    subst (λ u. find p ((j, w) ∷ t) ≡ some u) e.1 (rw (subst (λ u. p u ≡ true) (sym e.1) y) refl)
find-Occurs R p k ((j, w) ∷ t) {v} s h (inr o) y = elim (Bool-cases (p w)) [
  | inl hit ↦ absurd (s w v (Occurs-Entries (λ i u. R w u) k t h.0 o) hit y)
  | inr miss ↦ rw miss (find-Occurs R p k t s h.1 o y)
]

module _ {ℓ} {V : Type ℓ} where
  retain_missing :
      (p : String → V → Bool) (k : String) (t : Table V)
      → lookup k t ≡ none
      → lookup k (retain p t) ≡ none
  unfolding lookup retain
  retain_missing p k [] e = refl
  retain_missing p k ((j, w) ∷ t) e = elim (Bool-cases (j == k)) [
    | inl hit ↦ cc (hit)
    | inr miss ↦ elim (Bool-cases (p j w)) [
      | inl keep ↦ rw (keep, miss) (retain_missing p k t (rw miss at e))
      | inr drop ↦ rw drop (retain_missing p k t (rw miss at e))
    ]
  ]

  pub lookup-none :
      (k : String) (t : Table V) → lookup k t ≡ none → Entries (λ i w. (i == k) ≡ false) t
  unfolding lookup
  lookup-none k [] e = tt
  lookup-none k ((j, w) ∷ t) e = elim (Bool-cases (j == k)) [
    | inl hit ↦ cc (hit)
    | inr miss ↦ (miss, lookup-none k t (rw miss at e))
  ]

  -- A search among the entries that a test keeps.
  pub find-retain-none :
      (p : V → Bool) (q : String → V → Bool) (t : Table V)
      → find p (retain q t) ≡ none
      → Entries (λ k v. q k v ≡ true → p v ≡ false) t
  unfolding find retain
  find-retain-none p q [] e = tt
  find-retain-none p q ((j, w) ∷ t) e = elim (Bool-cases (q j w)) [
    | inl keep ↦ elim (Bool-cases (p w)) [
      | inl hit ↦ cc (keep, hit)
      | inr miss ↦ ((λ _. miss), find-retain-none p q t (rw (keep, miss) at e))
    ]
    | inr drop ↦ ((λ y. cc), find-retain-none p q t (rw drop at e))
  ]

  pub retain-Distinct : (p : String → V → Bool) (t : Table V) → Distinct t → Distinct (retain p t)
  unfolding retain
  retain-Distinct p [] d = tt
  retain-Distinct p ((j, w) ∷ t) d = elim (Bool-cases (p j w)) [
    | inl keep ↦ rw keep (retain_missing p j t d.0, retain-Distinct p t d.1)
    | inr drop ↦ rw drop (retain-Distinct p t d.1)
  ]

module _ {ℓ κ} {V : Type ℓ} (R : V → V → Type κ) where
  -- A new value for a key, related to the entries of the other keys.
  pub replace-Pairwise :
      (k : String) (v : V) (t : Table V)
      → ((a b : V) → R a b → R b a)
      → Distinct t
      → Entries (λ j w. (j == k) ≡ false → R w v) t
      → Pairwise R t
      → Pairwise R (insert k v t)
  unfolding insert
  replace-Pairwise k v [] s d h p = (tt, tt)
  replace-Pairwise k v ((j, w) ∷ t) s d h p = elim (Bool-cases (j == k)) [
    | inl hit ↦
        rw hit
          (others t (lookup-none k t (subst (λ a. lookup a t ≡ none) (eq→≡ j k hit) d.0)) h.1, p.1)
    | inr miss ↦
        rw miss
          (insert-Entries (λ i u. R w u) k v t (h.0 miss) p.0, replace-Pairwise k v t s d.1 h.1 p.1)
  ]
    where
      others :
          (u : Table V)
          → Entries (λ i x. (i == k) ≡ false) u
          → Entries (λ i x. (i == k) ≡ false → R x v) u
          → Entries (λ i x. R v x) u
      others [] n r = tt
      others ((i, x) ∷ u) n r = (s x v (r.0 n.0), others u n.1 r.1)
