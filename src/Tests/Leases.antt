-- ===== src/Tests/Leases.antt =====
-- The theorems on leases, applied to a store with waiting and running jobs.
use kelmor.Base.{arith, refl, false, some, ◌≡◌}
use kelmor.Store.Models.{Job}
use kelmor.Store.Memory.{new_memory}
use kelmor.Store.Op.{ok, err, stale_fence}
use kelmor.Store.Jobs.{update_job, enqueue_job, enqueue_job_with_audit}
use kelmor.Store.Jobs.Keys.{OneJobPerKey, enqueue_job-OneJobPerKey}
use kelmor.Store.Leases.{
  claim_job, claimed, heartbeat_job, best_job, lease, better, is_claimable, goes_before,
  next_resource_fence, last_fence, job_operation_id, expire_stale_leases,
}
use kelmor.Base.Table.{lookup, Entries}
use kelmor.Store.Leases.Expire.{Reaps, expire_stale_leases-Reaps}
use kelmor.Store.Leases.Stale.{IsKeyed, claim_job-supersedes}
use kelmor.Store.Leases.Claim.{Claims, claim_job-some, claim_job-none}
use kelmor.Tests.Data.{keyed_job, event, env, later, print, busy, job_of}

abbrev pub second : Job
second = job_of "job-2" 1 20 "queued"

abbrev leased : Job
leased = claimed env print "w" 1 second

claims_second : (claim_job env print "w" busy).1 ≡ some leased
unfolding claim_job new_memory lease best_job better is_claimable goes_before next_resource_fence
    last_fence lookup claimed job_operation_id
claims_second = refl

busy-IsKeyed : IsKeyed busy
unfolding new_memory lookup
busy-IsKeyed = record { own_id = (refl, (refl, (refl, tt))); once = (refl, (refl, (refl, tt))) }

claim_job-supersedes_example :
    let m' = (claim_job env print "w" busy).0 in
    (update_job second m' ≡ (m', err stale_fence))
    × (heartbeat_job later "job-2" "v" 0 m' ≡ (m', err stale_fence))
    × ((heartbeat_job later "job-2" "w" 1 m').1 ≡ ok tt)
unfolding new_memory lookup claimed
claim_job-supersedes_example =
    claim_job-supersedes env print "w" busy leased later second second "v" busy-IsKeyed
      (omega arith, (omega arith, (omega arith, tt))) tt claims_second refl refl (omega arith)

claim_job-some_example : Claims env print "w" busy leased
claim_job-some_example = claim_job-some env print "w" busy leased claims_second

expire_stale_leases-Reaps_example :
    (new : Job) × (lookup "job-3" (expire_stale_leases env 1000 busy).jobs ≡ some new)
    × Reaps 1000 1000 (record (job_of "job-3" 9 5 "running") { lease_expires = some 900 }) new
unfolding new_memory lookup
expire_stale_leases-Reaps_example =
    expire_stale_leases-Reaps env 1000 "job-3" busy
      (record (job_of "job-3" 9 5 "running") { lease_expires = some 900 })
      (omega arith, (omega arith, (omega arith, tt))) tt refl

claim_job-none_example : Entries (λ k j. is_claimable 5 j ≡ false) busy.jobs
unfolding claim_job new_memory lease best_job better is_claimable
claim_job-none_example = claim_job-none (record env { now = 5 }) print "w" busy refl

enqueue_job-OneJobPerKey_example :
    OneJobPerKey (enqueue_job env (keyed_job "job-9" "key") busy).0
    × OneJobPerKey (enqueue_job_with_audit env (some (keyed_job "job-9" "key")) event busy).0
unfolding new_memory
enqueue_job-OneJobPerKey_example =
    enqueue_job-OneJobPerKey env (keyed_job "job-9" "key") event busy
      ((refl, (refl, tt)), ((refl, tt), (tt, tt)))
