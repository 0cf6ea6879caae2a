-- ===== src/Worker/Outcome.antt =====
-- How a run of a job ends: the end of execute of internal/job/worker.go.
use kelmor.Base.{
  ℕ, ◌+◌, ◌≤◌, String, ◌≡◌, true, false, ◌||◌, some, arith, eq_iff, slt, sle, Bool-cases, inl, inr,
}
use kelmor.Store.Models.{Job}
use kelmor.Worker.{retry_delay, gone, concluded}

-- A job that is to be retried after an error has attempts left, and its error does not say that
-- something is missing; it is due at once or at most ten minutes later.
pub concluded-retrying :
    (now : ℕ) (j : Job) (e : String)
    → (concluded now j (some e)).state ≡ "retrying"
    → (slt j.attempts j.max_attempts ≡ true)
      × (gone e ≡ false)
      × (now ≤ (concluded now j (some e)).run_after)
      × ((concluded now j (some e)).run_after ≤ now + 600000000000)
unfolding concluded retry_delay
concluded-retrying now j e h = elim (Bool-cases (sle j.max_attempts j.attempts || gone e)) [
  | inl over ↦ absurd (ground (arith, eq_iff "failed" "retrying"))
  | inr more ↦ (ground arith, ground arith, ground arith, ground arith)
]
