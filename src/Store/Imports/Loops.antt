-- ===== src/Store/Imports/Loops.antt =====
-- The loops of importAccountWithJob (internal/store/import_atomic.go) that may refuse a row.
use kelmor.Base.{
  String, false, ◌≡◌, refl, subst, inl, inr, Option, none, some, List, [], ◌∷◌, All, Option-cases,
}
use kelmor.Base.Table.{Table, Entries, insert, has, insert-Entries}
use kelmor.Store.Memory.{Memory}
use kelmor.Store.Op.{
  StoreError, Result, ok, err, Op, Outcome, next, returned, ◌>>=◌, ◌>>◌, refuse_some,
}
use kelmor.Store.Imports.{kept, collect, check_all}

-- The program left the store alone, and went on with a value or returned an error.
abbrev pub Only : {R A : Type 0} → Memory → (A → Type 0) → Memory × Outcome A R → Type 0
Only s Q (s', next a) = (s' ≡ s) × Q a
Only s Q (s', returned (err e)) = s' ≡ s
Only s Q (s', returned (ok r)) = ⊥

pub kept-Only :
    {R A B : Type 0} (s : Memory) (Q : B → Type 0) (c : Result A) (f : A → Op R B)
    → ((a : A) → c ≡ ok a → Only s Q (f a s))
    → Only s Q ((kept c >>= f) s)
kept-Only s Q (ok a) f h = h a refl
kept-Only s Q (err e) f h = refl

pub refuse_some-Only :
    {R B : Type 0} (s : Memory) (Q : B → Type 0) (c : Option StoreError) (k : Op R B)
    → (c ≡ none → Only s Q (k s))
    → Only s Q ((refuse_some c >> k) s)
refuse_some-Only s Q none k h = h refl
refuse_some-Only s Q (some e) k h = refl

-- The row's id is new.
abbrev pub New : {V : Type 0} → (V → String) → Table V → V → Type 0
New key t x = has (key x) t ≡ false

abbrev pub NewKeys : {V : Type 0} → Table V → Table V → Type 0
NewKeys t rows = Entries (λ k v. has k t ≡ false) rows

pub collect-NewKeys :
    {V : Type 0} (t : Table V) (key : V → String) (check : V → Table V → Option StoreError)
    (xs : List V) (seen : Table V) {rows : Table V}
    → ((x : V) (u : Table V) → check x u ≡ none → New key t x)
    → NewKeys t seen
    → collect key check xs seen ≡ ok rows
    → NewKeys t rows
unfolding collect
collect-NewKeys {V} t key check [] seen {rows} h all e =
    let same : seen ≡ rows = cc in subst (λ (u : Table V). NewKeys t u) same all
collect-NewKeys t key check (x ∷ xs) seen h all e = elim (Option-cases (check x seen)) [
  | inr (bad, b) ↦ absurd (cc (rw (b, collect) at e))
  | inl good ↦
      collect-NewKeys t key check xs (insert (key x) x seen) h
        (insert-Entries (λ k v. has k t ≡ false) (key x) x seen (h x seen good) all)
        (rw (good, collect) at e)
]

pub check_all-New :
    {V : Type 0} (t : Table V) (key : V → String) (check : V → Option StoreError) (xs : List V)
    → ((x : V) → check x ≡ none → New key t x)
    → check_all check xs ≡ none
    → All (New key t) xs
unfolding check_all
check_all-New t key check [] h e = tt
check_all-New t key check (x ∷ xs) h e = elim (Option-cases (check x)) [
  | inr (bad, b) ↦ absurd (cc (rw (b, check_all) at e))
  | inl good ↦ (h x good, check_all-New t key check xs h (rw (good, check_all) at e))
]
