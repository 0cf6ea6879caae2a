-- ===== src/Worker.antt =====
-- The worker's run of a job: execute of internal/job/worker.go, with RetryDelay of
-- internal/store/memory.go. The handler is a parameter: it goes on with the job and the store, and
-- what other callers do to the store meanwhile is part of it.
pub mod Outcome
pub mod Fencing
use text.Mathlib.Text.{find?}
use kelmor.Base.{
  ℕ, ◌+◌, String, ◌⧺◌, Bool, ◌||◌, Option, none, some, [], ◌∷◌, ◌++◌, if◌then◌else◌, is_some, add64,
  sle, seq,
}
use kelmor.Store.Models.{Job}
use kelmor.Store.Memory.{Memory}
use kelmor.Store.Op.{Env, ok, err}
use kelmor.Store.Jobs.{update_job}
use kelmor.Agent.Fences.{Envelope}

-- Durations in nanoseconds, by the number of the attempt.
unfoldable pub retry_delay : ℕ → ℕ
retry_delay attempt =
    if seq attempt 1
    then 0
    else if seq attempt 2
    then 10000000000
    else if seq attempt 3
    then 30000000000
    else if seq attempt 4
    then 120000000000
    else 600000000000

-- An error whose text contains "missing" is not retried.
unfoldable pub gone : String → Bool
gone e = is_some (find? e "missing")

-- The envelope that the agent is bound to while the job runs.
unfoldable pub envelope_of : Job → Envelope
envelope_of j = record {
  operation_id = j.operation_id;
  request_id = j.request_id;
  actor_id = j.actor_id;
  resource_id = j.resource_id;
  expected_revision = j.target_revision;
  fence = j.fence;
}

unfoldable pub started : Job → Job
started j = record j { logs = j.logs ++ (("started " ⧺ j.type) ∷ []); progress = 5 }

-- The job after its handler returned, with an error's text or without.
unfoldable pub concluded : ℕ → Job → Option String → Job
concluded now j none = record j {
  state = "succeeded";
  progress = 100;
  finished_at = some now;
  logs = j.logs ++ ("succeeded" ∷ []);
}
concluded now j (some e) =
    let j' = record j { last_error = e; logs = j.logs ++ (("error: " ⧺ e) ∷ []) } in
    if sle j.max_attempts j.attempts || gone e
    then record j' { state = "failed"; finished_at = some now }
    else record j' { state = "retrying"; run_after = now + retry_delay (add64 j.attempts 1) }

module _ (handle : Job → Memory → Memory × (Job × Option String)) where
  -- The handler returned at `now`; `cancelled` says whether the context was over then.
  abbrev finish : ℕ → Bool → Memory × (Job × Option String) → Memory
  finish now cancelled (m, (j, e)) = if cancelled then m else (update_job (concluded now j e) m).0

  -- UpdateJob clears the caller's own `Retryable`.
  unfoldable pub execute : ℕ → Bool → Job → Memory → Memory
  execute now cancelled j m =
      let (m', r) = update_job (started j) m in
      elim r [
        | err e ↦ m'
        | ok u ↦ finish now cancelled (handle (record (started j) { retryable = none }) m')
      ]
