-- ===== src/Base/Table/Retain.antt =====
-- How deletions from a map compose.
use mathlib.Core.Path.{◌≡◌, refl, ap}
use mathlib.Core.Logic.{inl, inr}
use mathlib.Core.Bool.{Bool, true, false, ◌&&◌}
use mathlib.Core.Option.{none}
use mathlib.Core.List.{[], ◌∷◌, ◌++◌}
use Prim.Native.String.{String}
use native.Mathlib.Omega.{arith}
use text.Mathlib.TextEquality.{eq_iff}
use text.Mathlib.TextPositions.{eq_refl}
use kelmor.Base.Tests.{◌==◌, if◌then◌else◌, Bool-cases, eq→≡}
use kelmor.Base.Table.{Table, Distinct, lookup, retain, erase}

ne_sym : (a b : String) → (a == b) ≡ false → (b == a) ≡ false
ne_sym a b h = ground (arith, eq_iff a b, eq_iff b a)

module _ {ℓ} {V : Type ℓ} where
  pub retain-ext :
      (p q : String → V → Bool) (t : Table V)
      → ((k : String) (v : V) → p k v ≡ q k v)
      → retain p t ≡ retain q t
  unfolding retain
  retain-ext p q [] h = refl
  retain-ext p q ((j, w) ∷ t) h = rw (h j w, retain-ext p q t h)

  pub retain_all : (t : Table V) → retain (λ k v. true) t ≡ t
  unfolding retain
  retain_all [] = refl
  retain_all ((j, w) ∷ t) = rw (retain_all t)

  pub retain-retain :
      (p q : String → V → Bool) (t : Table V)
      → retain p (retain q t) ≡ retain (λ k v. q k v && p k v) t
  unfolding retain
  retain-retain p q [] = refl
  retain-retain p q ((j, w) ∷ t) = elim (Bool-cases (q j w)) [
    | inl keep ↦ rw keep (ap (λ r. if p j w then (j, w) ∷ r else r) (retain-retain p q t))
    | inr drop ↦ rw drop (retain-retain p q t)
  ]

  pub erase_missing : (k : String) (t : Table V) → lookup k t ≡ none → erase k t ≡ t
  unfolding erase lookup
  erase_missing k [] e = refl
  erase_missing k ((j, w) ∷ t) e = elim (Bool-cases (j == k)) [
    | inl hit ↦ cc (hit)
    | inr miss ↦ rw miss (ap (◌∷◌ (j, w)) (erase_missing k t (rw miss at e)))
  ]

  lookup_middle_ne :
      (i k : String) (v : V) (s t : Table V) → lookup i (s ++ (k, v) ∷ t) ≡ none → (k == i) ≡ false
  unfolding lookup
  lookup_middle_ne i k v [] t e = elim (Bool-cases (k == i)) [
    | inl hit ↦ cc (hit)
    | inr miss ↦ miss
  ]
  lookup_middle_ne i k v ((j, u) ∷ s) t e = elim (Bool-cases (j == i)) [
    | inl hit ↦ cc (hit)
    | inr miss ↦ lookup_middle_ne i k v s t (rw miss at e)
  ]

  skip :
      (i k : String) (v : V) (s t : Table V)
      → lookup i (s ++ (k, v) ∷ t) ≡ none
      → lookup i (s ++ t) ≡ none
  unfolding lookup
  skip i k v [] t e = elim (Bool-cases (k == i)) [ inl hit ↦ cc (hit) | inr miss ↦ (rw miss at e) ]
  skip i k v ((j, u) ∷ s) t e = elim (Bool-cases (j == i)) [
    | inl hit ↦ cc (hit)
    | inr miss ↦ rw miss (skip i k v s t (rw miss at e))
  ]

  -- An entry of its own key is cut out of the middle.
  pub erase-middle :
      (k : String) (v : V) (s t : Table V)
      → Distinct (s ++ (k, v) ∷ t)
      → erase k (s ++ (k, v) ∷ t) ≡ s ++ t
  unfolding erase
  erase-middle k v [] t d = rw (eq_refl k) (erase_missing k t d.0)
  erase-middle k v ((j, w) ∷ s) t d =
      rw (ne_sym k j (lookup_middle_ne j k v s t d.0)) (ap (◌∷◌ (j, w)) (erase-middle k v s t d.1))

  pub middle-Distinct :
      (k : String) (v : V) (s t : Table V) → Distinct (s ++ (k, v) ∷ t) → Distinct (s ++ t)
  middle-Distinct k v [] t d = d.1
  middle-Distinct k v ((j, w) ∷ s) t d = (skip j k v s t d.0, middle-Distinct k v s t d.1)

  -- A deletion by keys leaves the other keys as they were.
  pub lookup-retain_keys :
      (q : String → Bool) (k : String) (t : Table V)
      → lookup k (retain (λ j v. q j) t) ≡ (if q k then lookup k t else none)
  unfolding lookup retain
  lookup-retain_keys q k [] = ground arith
  lookup-retain_keys q k ((j, w) ∷ t) =
      let same : (j == k) ≡ true → q j ≡ q k = λ h. ap q (eq→≡ j k h) in
      ground (arith, same, lookup-retain_keys q k t)
