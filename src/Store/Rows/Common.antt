-- ===== src/Store/Rows/Common.antt =====
-- What the reads of internal/store/memory.go have in common.
use kelmor.Base.{
  ℕ, String, Bool, true, false, ◌||◌, ◌&&◌, Option, none, some, List, [], ◌∷◌, ◌==◌, nat_eq, ltb,
  filter,
}
use kelmor.Base.Table.{Table, values}

-- The rows of an account, or all rows where the account is empty.
abbrev pub listed {ℓ} : {V : Type ℓ} → String → (V → String) → Table V → List V
listed account_id account_of t =
    filter (λ v. account_id == "" || account_of v == account_id) (values t)

-- subtle.ConstantTimeCompare(a, b) == 1
abbrev pub bytes_eq : List ℕ → List ℕ → Bool
bytes_eq [] [] = true
bytes_eq (a ∷ xs) (b ∷ ys) = let rest = bytes_eq xs ys in nat_eq a b && rest
bytes_eq _ _ = false

abbrev pub is_past : ℕ → Option ℕ → Bool
is_past now none = false
is_past now (some t) = ltb t now
