-- ===== src/Tests/Agents.antt =====
-- The theorems on the agent and the worker, applied to a small host and store.
use kelmor.Base.{
  ℕ, suc, ◌+◌, ◌≤◌, String, Bool, true, false, ◌≡◌, ◌≢◌, refl, ◌⊎◌, inr, Option, none, some, [],
  ◌∷◌, arith, eq_iff, slt,
}
use kelmor.Base.Table.{Table, lookup}
use kelmor.Store.Models.{Job}
use kelmor.Store.Memory.{Memory, new_memory}
use kelmor.Store.Leases.{
  claim_job, claimed, lease, best_job, better, is_claimable, next_resource_fence, last_fence,
}
use kelmor.Store.Leases.Stale.{IsKeyed}
use kelmor.Agent.Fences.{
  Request, Envelope, FenceRecord, stale_resource_fence, Host, fence_key, accept_fence,
  remember_fence, judge, is_replay, load_fence, loaded,
}
use kelmor.Agent.Dispatch.{Services, done, failed, dispatch, with_bound, carry_out}
use kelmor.Agent.Order.{dispatch-supersedes}
use kelmor.Agent.Once.{dispatch-once}
use kelmor.Agent.Restart.{restart, dispatch_all, restart-accept_fence}
use kelmor.Worker.{envelope_of, execute, concluded, gone}
use kelmor.Worker.Outcome.{concluded-retrying}
use kelmor.Worker.Fencing.{execute_superseded, agent_superseded}
use kelmor.Tests.Data.{env, print}
use kelmor.Tests.Leases.{second}

-- A disk is the file of fences with a count of the calls carried out.
abbrev Disk : Type 0
Disk = Option (Table FenceRecord) × ℕ

abbrev services : Services Disk Bool
services = record {
  read = λ d. d.0;
  write = λ t d. (some t, d.1);
  fingerprint = λ r. "digest";
  marshal = λ b. inr "true";
  unmarshal = λ raw. true;
  before = λ r. none;
  remote = none;
  perform = λ r d. ((d.0, suc d.1), done true);
}

abbrev envelope : ℕ → Envelope
envelope n = record {
  operation_id = "op";
  request_id = "req-1";
  actor_id = "admin";
  resource_id = "acc-1";
  expected_revision = 1;
  fence = n;
}

abbrev request_of : Envelope → Request
request_of e = record { method = "LockLinuxUser"; env = e; params = "{}" }

abbrev host : Host Disk
host = record { bound_env = envelope 0; fences = none; disk = (none, 0) }

dispatch-supersedes_example :
    let h' = (dispatch services none (request_of (envelope 2)) host).0 in
    ((dispatch services none (request_of (envelope 1)) h').1 ≡ failed stale_resource_fence)
    × ((dispatch services none (request_of (envelope 1)) h').0.disk ≡ h'.disk)
unfolding dispatch with_bound accept_fence fence_key judge is_replay load_fence loaded lookup
    carry_out remember_fence
dispatch-supersedes_example =
    dispatch-supersedes services (request_of (envelope 2)) (request_of (envelope 1)) host {a = true}
      refl (omega arith) refl (omega arith) refl refl

not_empty : (b : Bool) (raw : String) → services.marshal b ≡ inr raw → raw ≢ ""
not_empty b raw e z = ground (arith, eq_iff "true" "")

dispatch-once_example :
    let h' = (dispatch services none (request_of (envelope 2)) host).0 in
    (raw : String) × ((services.marshal true ≡ inr raw) ⊎ (true ≡ services.unmarshal raw))
    × ((dispatch services none (request_of (envelope 2)) h').1 ≡ done (services.unmarshal raw))
    × ((dispatch services none (request_of (envelope 2)) h').0.disk ≡ h'.disk)
unfolding dispatch with_bound accept_fence fence_key judge is_replay load_fence loaded lookup
    carry_out remember_fence
dispatch-once_example =
    dispatch-once services (request_of (envelope 2)) host {a = true}
      (λ r e. ground (arith, eq_iff "digest" "")) not_empty refl (omega arith) refl

abbrev tried : Job
tried = record second { attempts = 2 }

concluded-retrying_example :
    (slt 2 5 ≡ true)
    × (gone "timeout" ≡ false)
    × (1000 ≤ (concluded 1000 tried (some "timeout")).run_after)
    × ((concluded 1000 tried (some "timeout")).run_after ≤ 1000 + 600000000000)
unfolding concluded gone
concluded-retrying_example = concluded-retrying 1000 tried "timeout" refl

abbrev handler : Job → Memory → Memory × (Job × Option String)
handler j m = (m, (j, none))

-- The second job after one lease was lost.
abbrev held : Job
held = record second { fence = 1 }

abbrev once_reaped : Memory
once_reaped = record new_memory { jobs = ("job-2", held) ∷ [] }

abbrev again : Job
again = claimed env print "w" 2 held

once_reaped-IsKeyed : IsKeyed once_reaped
unfolding new_memory lookup
once_reaped-IsKeyed = record { own_id = (refl, tt); once = (refl, tt) }

claims_again : (claim_job env print "w" once_reaped).1 ≡ some again
unfolding claim_job new_memory lease best_job better is_claimable next_resource_fence last_fence
    lookup
claims_again = refl

execute_superseded_example :
    execute handler 3000 false held (claim_job env print "w" once_reaped).0
    ≡ (claim_job env print "w" once_reaped).0
unfolding claimed lookup new_memory
execute_superseded_example =
    execute_superseded env print "w" once_reaped again handler 3000 false held held
      once_reaped-IsKeyed (omega arith, tt) tt claims_again refl refl (omega arith)

agent_superseded_example :
    let h' = (dispatch services none (request_of (envelope_of again)) host).0 in
    ((dispatch services none (request_of (envelope_of held)) h').1 ≡ failed stale_resource_fence)
    × ((dispatch services none (request_of (envelope_of held)) h').0.disk ≡ h'.disk)
unfolding claimed lookup new_memory dispatch with_bound accept_fence fence_key judge is_replay
    load_fence loaded carry_out remember_fence envelope_of
agent_superseded_example =
    agent_superseded env print "w" once_reaped again services host (request_of (envelope_of again))
      (request_of (envelope_of held)) held held {a = true} once_reaped-IsKeyed (omega arith, tt) tt
      claims_again refl (omega arith) (omega arith) refl (λ e. ground (arith, eq_iff "acc-1" "", e))
      refl refl refl refl

restart-accept_fence_example :
    let h' =
      dispatch_all services
        ((none, request_of (envelope 1)) ∷ (none, request_of (envelope 2)) ∷ [])
        host in
    (accept_fence services.read services.write services.fingerprint
      (request_of (envelope 1))
      (restart services h')).1
    ≡ (accept_fence services.read services.write services.fingerprint
        (request_of (envelope 1))
        h').1
restart-accept_fence_example =
    restart-accept_fence services
      ((none, request_of (envelope 1)) ∷ (none, request_of (envelope 2)) ∷ [])
      (request_of (envelope 1)) host
      (record { written = λ t d. refl; kept = λ r d. refl; here = refl }) refl
