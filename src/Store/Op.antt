-- ===== src/Store/Op.antt =====
-- A store method as a program over the memory, which may return early with a job or an error.
-- The named errors are those of internal/store/store.go; `errorf` is a format and its arguments.
use kelmor.Base.{ℕ, String, Bool, true, false, Option, none, some, List}
use kelmor.Store.Memory.{Memory}

pub data StoreError : Type 0 where
  stale_account : String → StoreError
  stale_fence : StoreError
  job_not_found : StoreError
  job_state_conflict : StoreError
  restore_in_progress : StoreError
  errorf : String → List String → StoreError

-- What a method returns: (value, nil) or (nil, err).
pub data Result {ℓ} (A : Type ℓ) : Type ℓ where
  ok : A → Result A
  err : StoreError → Result A

-- What a call finds around it: the clock, and what `id.New` would draw for a job, an event and a
-- journal. A call stands at one instant of the clock.
pub record Env : Type 0 where
  pub now : ℕ
  pub job_id : String
  pub audit_id : String
  pub restore_id : String

-- A statement goes on with a value, or the method has returned.
pub data Outcome (A : Type 0) (R : Type 0) : Type 0 where
  next : A → Outcome A R
  returned : Result R → Outcome A R

-- A program whose method returns an `R`.
abbrev pub Op : Type 0 → Type 0 → Type 0
Op R A = Memory → Memory × Outcome A R

abbrev pub resume : {R A B : Type 0} → Memory × Outcome A R → (A → Op R B) → Memory × Outcome B R
resume (s, next a) f = f a s
resume (s, returned r) f = (s, returned r)

infixl 5 ◌>>=◌ ◌>>◌
abbrev pub ◌>>=◌ : {R A B : Type 0} → Op R A → (A → Op R B) → Op R B
◌>>=◌ m f s = resume (m s) f

abbrev pub ◌>>◌ : {R B : Type 0} → Op R (Unit {0}) → Op R B → Op R B
m >> k = m >>= λ _. k

abbrev pub pure : {R A : Type 0} → A → Op R A
pure a s = (s, next a)

abbrev pub get : {R : Type 0} → Op R Memory
get s = (s, next s)

abbrev pub modify : {R : Type 0} → (Memory → Memory) → Op R (Unit {0})
modify f s = (f s, next tt)

abbrev pub exit : {R A : Type 0} → Result R → Op R A
exit r s = (s, returned r)

-- if b { return nil, e }
abbrev pub refuse : {R : Type 0} → Bool → StoreError → Op R (Unit {0})
refuse true e = exit (err e)
refuse false e = pure tt

-- if e := ...; e != nil { return nil, e }
abbrev pub refuse_some : {R : Type 0} → Option StoreError → Op R (Unit {0})
refuse_some none = pure tt
refuse_some (some e) = exit (err e)

-- if p == nil { return nil, e }
abbrev pub given : {R A : Type 0} → Option A → StoreError → Op R A
given none e = exit (err e)
given (some a) e = pure a

-- if x := ...; x != nil { return x, nil }
abbrev pub reply : {R : Type 0} → Option R → Op R (Unit {0})
reply none = pure tt
reply (some r) = exit (ok r)

abbrev pub close : {R : Type 0} → Outcome R R → Result R
close (next r) = ok r
close (returned r) = r

-- The method: its last value is what it returns.
abbrev pub run : {R : Type 0} → Op R R → Memory → Memory × Result R
run m s = let (s', o) = m s in (s', close o)
