-- ===== src/Store/Cascade/Loops.antt =====
-- Deleting rows one by one with what hangs on them, as DeleteDomain of internal/store/memory.go
-- does, on two maps: the rows and their dependants.
use kelmor.Base.{
  String, ◌≡◌, refl, sym, ap, ◌∙◌, subst, true, false, not, ◌&&◌, Bool, [], ◌∷◌, ◌++◌, arith, ◌==◌,
  if◌then◌else◌, Bool-cases, inl, inr,
}
use kelmor.Base.Table.{Table, Distinct, erase, retain}
use kelmor.Base.Table.Retain.{retain-ext, retain_all, retain-retain, erase-middle, middle-Distinct}

-- Whether the key is that of a flagged row.
unfoldable pub is_hit : {V : Type 0} → (V → Bool) → Table V → String → Bool
is_hit flag [] k = false
is_hit flag ((i, v) ∷ t) k = let rest = is_hit flag t k in if flag v && k == i then true else rest

module _ {V C : Type 0} (flag : V → Bool) (parent : C → String) where
  unfoldable pub drop_rows : Table V → Table V × Table C → Table V × Table C
  drop_rows [] p = p
  drop_rows ((i, v) ∷ t) p =
      drop_rows t (if flag v then (erase i p.0, retain (λ c w. not (parent w == i)) p.1) else p)

  pub drop_rows_hit :
      (i : String) (v : V) (t : Table V) (p : Table V × Table C)
      → flag v ≡ true
      → drop_rows ((i, v) ∷ t) p
        ≡ drop_rows t (erase i p.0, retain (λ c w. not (parent w == i)) p.1)
  unfolding drop_rows
  drop_rows_hit i v t p y = rw y refl

  pub drop_rows_miss :
      (i : String) (v : V) (t : Table V) (p : Table V × Table C)
      → flag v ≡ false
      → drop_rows ((i, v) ∷ t) p ≡ drop_rows t p
  unfolding drop_rows
  drop_rows_miss i v t p n = rw n refl

  abbrev pub kept : Table V → Table C → Table C
  kept t cs = retain (λ c w. not (is_hit flag t (parent w))) cs

  append_assoc : (s t : Table V) (e : String × V) → (s ++ (e ∷ [])) ++ t ≡ s ++ (e ∷ t)
  append_assoc [] t e = refl
  append_assoc (x ∷ s) t e = ap (◌∷◌ x) (append_assoc s t e)

  kept-hit :
      (i : String) (v : V) (t : Table V) (cs : Table C)
      → flag v ≡ true
      → kept t (retain (λ c w. not (parent w == i)) cs) ≡ kept ((i, v) ∷ t) cs
  unfolding is_hit
  kept-hit i v t cs y =
      retain-retain (λ c w. not (is_hit flag t (parent w))) (λ c w. not (parent w == i)) cs
      ∙ retain-ext _ _ cs (λ c w. ground arith)

  kept-miss :
      (i : String) (v : V) (t : Table V) (cs : Table C)
      → flag v ≡ false
      → kept t cs ≡ kept ((i, v) ∷ t) cs
  unfolding is_hit
  kept-miss i v t cs n = retain-ext _ _ cs (λ c w. ground arith)

  kept_none : (s : Table V) (cs : Table C) → ◌≡◌ {A = Table V × Table C} (s, cs) (s, kept [] cs)
  unfolding is_hit
  kept_none s cs = ap (λ c. (s, c)) (sym (retain_all cs))

  drop_rows-kept :
      (t s : Table V) (cs : Table C)
      → Distinct (s ++ t)
      → drop_rows t (s ++ t, cs) ≡ (s ++ retain (λ k v. not (flag v)) t, kept t cs)
  unfolding drop_rows retain
  drop_rows-kept [] s cs d = kept_none (s ++ []) cs
  drop_rows-kept ((i, v) ∷ t) s cs d = elim (Bool-cases (flag v)) [
    | inl y ↦
        let cut = erase-middle i v s t d in
        let next =
          drop_rows-kept t s (retain (λ c w. not (parent w == i)) cs) (middle-Distinct i v s t d) in
        rw (y, cut)
          (next ∙ ap (λ c. (s ++ retain (λ k v. not (flag v)) t, c)) (kept-hit i v t cs y))
    | inr n ↦
        let next =
          drop_rows-kept t (s ++ ((i, v) ∷ [])) cs
            (subst Distinct (sym (append_assoc s t (i, v))) d) in
        let rest = retain (λ k v. not (flag v)) t in
        rw n (
          ap (λ w. drop_rows t (w, cs)) (sym (append_assoc s t (i, v)))
          ∙ next
          ∙ ap (λ w. (w, kept t cs)) (append_assoc s rest (i, v))
          ∙ ap (λ c. (s ++ ((i, v) ∷ rest), c)) (kept-miss i v t cs n))
  ]

  -- The loop over all rows drops the flagged ones and what hangs on them, and nothing else.
  pub drop_rows_all :
      (t : Table V) (cs : Table C)
      → Distinct t
      → drop_rows t (t, cs) ≡ (retain (λ k v. not (flag v)) t, kept t cs)
  drop_rows_all t cs d = drop_rows-kept t [] cs d
