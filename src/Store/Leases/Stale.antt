-- ===== src/Store/Leases/Stale.antt =====
-- Workers whose lease was given to another: ClaimJob, then UpdateJob and HeartbeatJob of
-- internal/store/memory.go.
use mathlib.Core.Option.{some-injective}
use kelmor.Base.{
  ℕ, ◌<◌, String, ◌≡◌, ◌≢◌, some, arith, ap, sym, subst, ◌∙◌, eq_refl, eq_iff, sign_bit, ◌+◌, ◌≤◌,
}
use kelmor.Base.Table.{
  lookup, Entries, Distinct, lookup-insert, lookup-Occurs, Occurs-Entries, lookup-Entries,
}
use kelmor.Store.Models.{Job}
use kelmor.Store.Memory.{Memory}
use kelmor.Store.Op.{Env, ok, err, stale_fence}
use kelmor.Store.Jobs.{update_job, accept_job_mutation}
use kelmor.Store.Leases.{claim_job, claimed, heartbeat_job, next_resource_fence}
use kelmor.Store.Leases.Claim.{Takes, claim_job_lem}
use kelmor.Store.Leases.Fences.{FencesBelow, JobsBelow, last_fence-below, next_resource_fence_above}

-- Every job stands under its own id, once.
pub record IsKeyed (m : Memory) : Type 0 where
  pub own_id : Entries (λ k j. k ≡ j.id) m.jobs
  pub once : Distinct m.jobs

update_job_stale :
    (x stored : Job) (m : Memory)
    → lookup x.id m.jobs ≡ some stored
    → stored.fence ≢ 0
    → x.fence ≢ stored.fence
    → update_job x m ≡ (m, err stale_fence)
unfolding update_job accept_job_mutation
update_job_stale x stored m e h k = ground arith

heartbeat_job_stale :
    (env : Env) (id owner : String) (fence : ℕ) (stored : Job) (m : Memory)
    → lookup id m.jobs ≡ some stored
    → stored.fence ≢ fence
    → heartbeat_job env id owner fence m ≡ (m, err stale_fence)
unfolding heartbeat_job
heartbeat_job_stale env id owner fence stored m e h = ground arith

heartbeat_job_holder :
    (env : Env) (stored : Job) (id : String) (m : Memory)
    → lookup id m.jobs ≡ some stored
    → stored.state ≡ "running"
    → (heartbeat_job env id stored.locked_by stored.fence m).1 ≡ ok tt
unfolding heartbeat_job
heartbeat_job_holder env stored id m e h =
    ground (arith, eq_refl stored.locked_by, eq_iff stored.state "running")

module _ (env : Env) (print : ℕ → String) (worker : String) (m : Memory) (j : Job) where
  abbrev after_claim : Memory
  after_claim = (claim_job env print worker m).0

  claim_job-key :
      (w : IsKeyed m) (c : Takes env print worker m j)
      → (c.key ≡ j.id) × (lookup j.id m.jobs ≡ some c.best)
  unfolding claimed
  claim_job-key w c = (same, subst (λ k. lookup k m.jobs ≡ some c.best) same found)
    where
      same : c.key ≡ j.id
      same =
          Occurs-Entries (λ k a. k ≡ a.id) c.key m.jobs w.own_id c.occurs
          ∙ sym (ap (λ a. a.id) c.leased)

      found : lookup c.key m.jobs ≡ some c.best
      found = lookup-Occurs c.key m.jobs w.once c.occurs

  -- The job handed out is stored, and is the lease of the job that stood there.
  pub claim_job-stored :
      (old : Job)
      → IsKeyed m
      → (claim_job env print worker m).1 ≡ some j
      → lookup j.id m.jobs ≡ some old
      → (lookup j.id after_claim.jobs ≡ some j)
        × (j ≡ claimed env print worker (next_resource_fence old m.resource_fences).0 old)
  claim_job-stored old w e o = (
    rw (c.memory, lookup-insert, k.0, eq_refl j.id),
    subst (λ a. j ≡ claimed env print worker (next_resource_fence a m.resource_fences).0 a)
        (some-injective _ _ (sym k.1 ∙ o)) c.leased,
  )
    where
      c : Takes env print worker m j
      c = claim_job_lem env print worker m j e

      k : (c.key ≡ j.id) × (lookup j.id m.jobs ≡ some c.best)
      k = claim_job-key w c

  pub claim_job_above :
      (old : Job)
      → IsKeyed m
      → JobsBelow 1 m.jobs
      → FencesBelow 1 m.resource_fences
      → (claim_job env print worker m).1 ≡ some j
      → lookup j.id m.jobs ≡ some old
      → old.fence < j.fence
  unfolding claimed
  claim_job_above old w jb fb e o =
      let held = claim_job-stored old w e o in
      let room : 1 + old.fence < sign_bit =
        lookup-Entries (λ k a. 1 + a.fence < sign_bit) j.id m.jobs jb o in
      let room' = last_fence-below 1 old m.resource_fences (omega arith) fb in
      rw held.1 (next_resource_fence_above old m.resource_fences (omega arith) (omega arith)).1

  -- Let jobs stand under their own ids, once, with fences that stay below 2^63 when one is
  -- added. When ClaimJob has handed a job out, a worker that held it under the fence it had
  -- before, or an earlier one, gets ErrStaleFence from UpdateJob and from HeartbeatJob, which
  -- change nothing, and the new holder's heartbeat is accepted.
  pub claim_job-supersedes :
      (env' : Env) (old x : Job) (owner : String)
      → IsKeyed m
      → JobsBelow 1 m.jobs
      → FencesBelow 1 m.resource_fences
      → (claim_job env print worker m).1 ≡ some j
      → lookup j.id m.jobs ≡ some old
      → x.id ≡ j.id
      → x.fence ≤ old.fence
      → (update_job x after_claim ≡ (after_claim, err stale_fence))
        × (heartbeat_job env' x.id owner x.fence after_claim ≡ (after_claim, err stale_fence))
        × ((heartbeat_job env' j.id worker j.fence after_claim).1 ≡ ok tt)
  unfolding claimed
  claim_job-supersedes env' old x owner w jb fb e o same late = (
    update_job_stale x j after_claim stored (omega (arith, above)) (omega (arith, above)),
    heartbeat_job_stale env' x.id owner x.fence j after_claim stored (omega (arith, above)),
    subst (λ a. (heartbeat_job env' j.id a j.fence after_claim).1 ≡ ok tt)
        (ap (λ a. a.locked_by) held.1)
        (heartbeat_job_holder env' j j.id after_claim held.0 (ap (λ a. a.state) held.1)),
  )
    where
      held :
          (lookup j.id after_claim.jobs ≡ some j)
          × (j ≡ claimed env print worker (next_resource_fence old m.resource_fences).0 old)
      held = claim_job-stored old w e o

      above : old.fence < j.fence
      above = claim_job_above old w jb fb e o

      stored : lookup x.id after_claim.jobs ≡ some j
      stored = rw same held.0
