-- ===== src/Store/Leases/Best.antt =====
-- Which job a claim takes.
use kelmor.Base.{
  ℕ, String, ◌≡◌, refl, ◌⊎◌, inl, inr, true, false, ◌&&◌, Option, none, some, [], ◌∷◌, arith, subst,
  Bool-cases,
}
use kelmor.Base.Table.{Table, Entries, Occurs}
use kelmor.Store.Models.{Job}
use kelmor.Store.Leases.{is_claimable, goes_before, better, best_job}

-- No claimable job goes before this one.
abbrev pub Unbeaten : ℕ → Job → String → Job → Type 0
Unbeaten now j i c = (is_claimable now c && goes_before c j) ≡ false

goes_before_trans :
    (a b c : Job) → goes_before a b ≡ true → goes_before a c ≡ false → goes_before b c ≡ false
unfolding goes_before
goes_before_trans a b c h k = ground arith

goes_before-ntrans :
    (a b c : Job) → goes_before a b ≡ false → goes_before b c ≡ false → goes_before a c ≡ false
unfolding goes_before
goes_before-ntrans a b c h k = ground arith

goes_before_irrefl : (a : Job) → goes_before a a ≡ false
unfolding goes_before
goes_before_irrefl a = ground arith

-- What the loop still owes to the best job so far.
abbrev pub Beats : Option (String × Job) → Job → Type 0
Beats none j = Unit {0}
Beats (some (i, c)) j = goes_before c j ≡ false

abbrev pub Picked : ℕ → Option (String × Job) → Table Job → String → Job → Type 0
Picked now best t k j =
    ((best ≡ some (k, j)) ⊎ (Occurs k j t × (is_claimable now j ≡ true)))
    × Beats best j
    × Entries (Unbeaten now j) t

pair_of_some :
    (i k : String) (c j : Job)
    → ◌≡◌ {A = Option (String × Job)} (some (i, c)) (some (k, j))
    → (i ≡ k) × (c ≡ j)
pair_of_some i k c j e = ground arith

not_before :
    (now : ℕ) (c j : Job)
    → goes_before c j ≡ false
    → (is_claimable now c && goes_before c j) ≡ false
not_before now c j h = ground arith

not_claimable :
    (now : ℕ) (c j : Job)
    → is_claimable now c ≡ false
    → (is_claimable now c && goes_before c j) ≡ false
not_claimable now c j h = ground arith

-- A job that did not replace the best one does not go before a job that the best one leaves first.
skipped :
    (now : ℕ) (c b j : Job)
    → (is_claimable now c && goes_before c b) ≡ false
    → goes_before b j ≡ false
    → (is_claimable now c && goes_before c j) ≡ false
skipped now c b j h k = elim (Bool-cases (goes_before c b)) [
  | inl y ↦ not_claimable now c j (ground arith)
  | inr n ↦ not_before now c j (goes_before-ntrans c b j n k)
]

pub best_job_lem :
    (now : ℕ) (best : Option (String × Job)) (t : Table Job) {k : String} {j : Job}
    → best_job now best t ≡ some (k, j)
    → Picked now best t k j
unfolding best_job better
best_job_lem now none [] e = cc
best_job_lem now (some (i, c)) [] {k} {j} e = (
  inl e,
  subst (λ a. goes_before c a ≡ false) (pair_of_some i k c j e).1 (goes_before_irrefl c),
  tt,
)
best_job_lem now none ((i, c) ∷ t) {k} {j} e = elim (Bool-cases (is_claimable now c)) [
  | inl y ↦
      let ih : Picked now (some (i, c)) t k j = best_job_lem now (some (i, c)) t (rw y at e) in
      elim ih.0 [
        | inl p ↦
            let q = pair_of_some i k c j p in
            (
              inr (inl q, subst (λ a. is_claimable now a ≡ true) q.1 y),
              tt,
              (not_before now c j ih.1, ih.2),
            )
        | inr o ↦ (inr (inr o.0, o.1), tt, (not_before now c j ih.1, ih.2))
      ]
  | inr n ↦
      let ih : Picked now none t k j = best_job_lem now none t (rw n at e) in
      elim ih.0 [ inl p ↦ cc | inr o ↦ (inr (inr o.0, o.1), tt, (not_claimable now c j n, ih.2)) ]
]
best_job_lem now (some (h, b)) ((i, c) ∷ t) {k} {j} e =
    elim (Bool-cases (is_claimable now c && goes_before c b)) [
      | inl y ↦
          let ih : Picked now (some (i, c)) t k j = best_job_lem now (some (i, c)) t (rw y at e) in
          let both : (is_claimable now c ≡ true) × (goes_before c b ≡ true) = ground arith in
          elim ih.0 [
            | inl p ↦
                let q = pair_of_some i k c j p in
                (
                  inr (inl q, subst (λ a. is_claimable now a ≡ true) q.1 both.0),
                  goes_before_trans c b j both.1 ih.1,
                  (not_before now c j ih.1, ih.2),
                )
            | inr o ↦ (
              inr (inr o.0, o.1),
              goes_before_trans c b j both.1 ih.1,
              (not_before now c j ih.1, ih.2),
            )
          ]
      | inr n ↦
          let ih : Picked now (some (h, b)) t k j = best_job_lem now (some (h, b)) t (rw n at e) in
          let kept : Unbeaten now j i c = skipped now c b j n ih.1 in
          elim ih.0 [
            | inl p ↦ (inl p, ih.1, (kept, ih.2))
            | inr o ↦ (inr (inr o.0, o.1), ih.1, (kept, ih.2))
          ]
    ]

pub best_job-none :
    (now : ℕ) (best : Option (String × Job)) (t : Table Job)
    → best_job now best t ≡ none
    → (best ≡ none) × Entries (λ i c. is_claimable now c ≡ false) t
unfolding best_job better
best_job-none now none [] e = (refl, tt)
best_job-none now (some b) [] e = cc
best_job-none now none ((i, c) ∷ t) e = elim (Bool-cases (is_claimable now c)) [
  | inl y ↦ let ih = best_job-none now (some (i, c)) t (rw y at e) in cc (ih.0)
  | inr n ↦ let ih = best_job-none now none t (rw n at e) in (refl, (n, ih.1))
]
best_job-none now (some (h, b)) ((i, c) ∷ t) e =
    elim (Bool-cases (is_claimable now c && goes_before c b)) [
      | inl y ↦ let ih = best_job-none now (some (i, c)) t (rw y at e) in cc (ih.0)
      | inr n ↦ let ih = best_job-none now (some (h, b)) t (rw n at e) in cc (ih.0)
    ]
