-- ===== src/Worker/Fencing.antt =====
-- A worker whose job was handed to another: execute of internal/job/worker.go after ClaimJob of
-- internal/store/memory.go, and its requests to Dispatch of agent/operations/ops.go.
use kelmor.Base.{
  ℕ, ◌+◌, ◌<◌, ◌≤◌, String, Bool, ◌≡◌, ◌≢◌, refl, sym, ap, ◌∙◌, true, Option, none, some, arith,
  slt, ne→eq_false, sign_bit,
}
use kelmor.Base.Table.{lookup, lookup-Entries}
use kelmor.Store.Models.{Job}
use kelmor.Store.Memory.{Memory}
use kelmor.Store.Op.{Env, err, stale_fence}
use kelmor.Store.Jobs.{update_job}
use kelmor.Store.Leases.{claim_job, claimed}
use kelmor.Store.Leases.Fences.{FencesBelow, JobsBelow, next_resource_fence-FencesBelow}
use kelmor.Store.Leases.Stale.{IsKeyed, claim_job-supersedes, claim_job_above, claim_job-stored}
use kelmor.Agent.Fences.{Request, Host, stale_resource_fence, fence_key}
use kelmor.Agent.Dispatch.{Services, done, failed, dispatch}
use kelmor.Agent.Order.{dispatch-supersedes}
use kelmor.Worker.{envelope_of, started, execute}

module _ (env : Env) (print : ℕ → String) (worker : String) (m : Memory) (j : Job) where
  abbrev after_claim : Memory
  after_claim = (claim_job env print worker m).0

  execute_refused :
      (handle : Job → Memory → Memory × (Job × Option String)) (now : ℕ) (cancelled : Bool)
      (x : Job) (s : Memory)
      → update_job (started x) s ≡ (s, err stale_fence)
      → execute handle now cancelled x s ≡ s
  unfolding execute
  execute_refused handle now cancelled x s e = rw (execute, ap (λ p. p.1) e) (ap (λ p. p.0) e)

  -- Let jobs stand under their own ids, once, with fences that stay below 2^63 when one is added.
  -- When ClaimJob has handed a job out, the run of that job by a worker that holds it under the
  -- fence it had before, or an earlier one, changes nothing in the store, whatever its handler is.
  pub execute_superseded :
      (handle : Job → Memory → Memory × (Job × Option String)) (now : ℕ) (cancelled : Bool)
      (old x : Job)
      → IsKeyed m
      → JobsBelow 1 m.jobs
      → FencesBelow 1 m.resource_fences
      → (claim_job env print worker m).1 ≡ some j
      → lookup j.id m.jobs ≡ some old
      → x.id ≡ j.id
      → x.fence ≤ old.fence
      → execute handle now cancelled x after_claim ≡ after_claim
  unfolding started
  execute_superseded handle now cancelled old x w jb fb e o same late =
      execute_refused handle now cancelled x after_claim
        (claim_job-supersedes env print worker m j env old (started x) worker w jb fb e o same
          late).0

  claim_job-below :
      (old : Job)
      → IsKeyed m
      → JobsBelow 1 m.jobs
      → FencesBelow 1 m.resource_fences
      → (claim_job env print worker m).1 ≡ some j
      → lookup j.id m.jobs ≡ some old
      → j.fence < sign_bit
  unfolding claimed
  claim_job-below old w jb fb e o =
      let held = claim_job-stored env print worker m j old w e o in
      let room : 1 + old.fence < sign_bit =
        lookup-Entries (λ k a. 1 + a.fence < sign_bit) j.id m.jobs jb o in
      let below = (next_resource_fence-FencesBelow 0 old m.resource_fences room fb).1 in
      rw held.1 (omega (arith, below))

  slt_of_lt : (a b : ℕ) → a < b → b < sign_bit → slt a b ≡ true
  slt_of_lt a b l r = ground arith

  same_key :
      (x : Job)
      → x.resource_id ≡ j.resource_id
      → j.resource_id ≢ ""
      → fence_key (envelope_of x) ≡ fence_key (envelope_of j)
  unfolding fence_key envelope_of
  same_key x same named = rw (same, ne→eq_false j.resource_id "" named) refl

  -- Let jobs stand under their own ids, once, with fences that stay below 2^63 when one is added.
  -- Let ClaimJob have handed a job out that names a resource, by an id that is not empty, and let
  -- the worker of an older lease hold a job that names the same resource, under the fence that the
  -- claimed job had in the store before, or an earlier one, which is not zero. When the agent, on
  -- the host itself, has answered a request under the envelope of the new lease, it refuses every
  -- request under the envelope of the old one as stale, and its disk stays as it was.
  pub agent_superseded :
      {D A : Type 0} (s : Services D A) (h : Host D) (req late : Request) (old x : Job) {a : A}
      → IsKeyed m
      → JobsBelow 1 m.jobs
      → FencesBelow 1 m.resource_fences
      → (claim_job env print worker m).1 ≡ some j
      → lookup j.id m.jobs ≡ some old
      → x.fence ≤ old.fence
      → x.fence ≢ 0
      → x.resource_id ≡ j.resource_id
      → j.resource_id ≢ ""
      → s.remote ≡ none
      → req.env ≡ envelope_of j
      → late.env ≡ envelope_of x
      → (dispatch s none req h).1 ≡ done a
      → let h' = (dispatch s none req h).0 in
        ((dispatch s none late h').1 ≡ failed stale_resource_fence)
        × ((dispatch s none late h').0.disk ≡ h'.disk)
  unfolding envelope_of
  agent_superseded s h req late old x w jb fb e o before held resource named here mine theirs d =
      dispatch-supersedes s req late h here (λ z. absurd (omega (arith, above, sym same ∙ z))) d
        (λ z. held (sym same' ∙ z))
        (ap fence_key theirs ∙ same_key x resource named ∙ sym (ap fence_key mine))
        (ap (λ f. slt f req.env.fence) same'
          ∙ ap (slt x.fence) same
          ∙ slt_of_lt x.fence j.fence (omega (arith, above)) (claim_job-below old w jb fb e o))
    where
      above : old.fence < j.fence
      above = claim_job_above env print worker m j old w jb fb e o

      same : req.env.fence ≡ j.fence
      same = ap (λ v. v.fence) mine

      same' : late.env.fence ≡ x.fence
      same' = ap (λ v. v.fence) theirs
