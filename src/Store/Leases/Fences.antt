-- ===== src/Store/Leases/Fences.antt =====
-- The fences of nextResourceFence (internal/store/memory.go), which are int64 numbers.
use kelmor.Base.{ℕ, suc, ◌+◌, ◌<◌, ◌≡◌, inl, inr, arith, Option-cases, eq_refl, sign_bit}
use kelmor.Base.Table.{
  Table, lookup, Entries, Entries-map, insert-Entries, lookup-Entries, lookup-insert,
}
use kelmor.Store.Models.{Job}
use kelmor.Store.Leases.{next_resource_fence, resource_fence_key, last_fence}

-- A claim or a reaped lease takes a fence above the job's own and above all that its resource had.
pub next_resource_fence_above :
    (j : Job) (fences : Table ℕ)
    → suc j.fence < sign_bit
    → suc (last_fence j fences) < sign_bit
    → (last_fence j fences < (next_resource_fence j fences).0)
      × (j.fence < (next_resource_fence j fences).0)
unfolding next_resource_fence last_fence
next_resource_fence_above j fences h k = ground arith

-- The fence that the next lease of the resource starts from.
pub last_fence-next :
    (j : Job) (fences : Table ℕ)
    → last_fence j (next_resource_fence j fences).1 ≡ (next_resource_fence j fences).0
unfolding next_resource_fence last_fence
last_fence-next j fences = ground (
  arith,
  lookup-insert (resource_fence_key j) (resource_fence_key j) (next_resource_fence j fences).0
      fences,
  eq_refl (resource_fence_key j),
)

-- Fences with room for n more leases below the end of int64.
abbrev pub FencesBelow : ℕ → Table ℕ → Type 0
FencesBelow n = Entries λ k f. n + f < sign_bit

abbrev pub JobsBelow : ℕ → Table Job → Type 0
JobsBelow n = Entries λ k j. n + j.fence < sign_bit

pub FencesBelow-pred : (n : ℕ) (t : Table ℕ) → FencesBelow (suc n) t → FencesBelow n t
FencesBelow-pred n t = Entries-map _ _ t (λ k f h. omega arith)

pub JobsBelow-pred : (n : ℕ) (t : Table Job) → JobsBelow (suc n) t → JobsBelow n t
JobsBelow-pred n t = Entries-map _ _ t (λ k f h. omega arith)

pub last_fence-below :
    (n : ℕ) (j : Job) (fences : Table ℕ)
    → n < sign_bit
    → FencesBelow n fences
    → n + last_fence j fences < sign_bit
unfolding last_fence
last_fence-below n j fences h b = elim (Option-cases (lookup (resource_fence_key j) fences)) [
  | inl e ↦ rw (e, last_fence) (omega arith)
  | inr (f, e) ↦ rw (e, last_fence) (lookup-Entries (λ k f. n + f < sign_bit) _ fences b e)
]

next_resource_fence-below :
    (n : ℕ) (j : Job) (fences : Table ℕ)
    → suc n + j.fence < sign_bit
    → suc n + last_fence j fences < sign_bit
    → n + (next_resource_fence j fences).0 < sign_bit
unfolding next_resource_fence
next_resource_fence-below n j fences h k = ground arith

-- A lease takes one step of the room.
pub next_resource_fence-FencesBelow :
    (n : ℕ) (j : Job) (fences : Table ℕ)
    → suc n + j.fence < sign_bit
    → FencesBelow (suc n) fences
    → FencesBelow n (next_resource_fence j fences).1
      × (n + (next_resource_fence j fences).0 < sign_bit)
unfolding next_resource_fence
next_resource_fence-FencesBelow n j fences h b =
    (insert-Entries (λ k f. n + f < sign_bit) _ _ fences below (FencesBelow-pred n fences b), below)
  where
    below : n + (next_resource_fence j fences).0 < sign_bit
    below =
        next_resource_fence-below n j fences h (last_fence-below (suc n) j fences (omega arith) b)
