-- ===== src/Store/Leases.antt =====
-- Leases and fences: ClaimJob, HeartbeatJob, ExpireStaleLeases, nextResourceFence and
-- BumpResourceFence of memory.go, with the keys of fence.go (internal/store). The best job is
-- claimed by priority and age, for a lease that heartbeats renew, under a fresh fence.
pub mod Best
pub mod Claim
pub mod Expire
pub mod Stale
pub mod Fences
use kelmor.Base.{
  ℕ, ◌+◌, ◌-◌, String, ◌⧺◌, Bool, true, false, not, ◌&&◌, ◌||◌, Option, none, some, [], ◌∷◌, ltb,
  leb, nat_eq, ◌==◌, if◌then◌else◌, add64, slt, seq,
}
use kelmor.Base.Table.{Table, lookup, insert}
use kelmor.Store.Models.{Job}
use kelmor.Store.Memory.{Memory}
use kelmor.Store.Op.{
  stale_fence, job_not_found, Result, Env, ◌>>=◌, ◌>>◌, get, modify, refuse, given, run,
}

-- 2 * time.Minute
abbrev pub job_lease_ttl : ℕ
job_lease_ttl = 120000000000

-- "%s:%d": the decimal print of a fence is a parameter of a claim.
unfoldable pub job_operation_id : (ℕ → String) → String → ℕ → String
job_operation_id print id fence = id ⧺ (":" ⧺ print fence)

unfoldable pub resource_fence_key : Job → String
resource_fence_key j =
    if j.resource_type == "" && j.resource_id == ""
    then "job/" ⧺ j.id
    else j.resource_type ⧺ ("/" ⧺ j.resource_id)

-- The last fence given out for a job's resource; a missing entry reads 0.
unfoldable pub last_fence : Job → Table ℕ → ℕ
last_fence j fences = elim (lookup (resource_fence_key j) fences) [ none ↦ 0 | some n ↦ n ]

-- The next fence of a job's resource, above its last one and above the job's own.
unfoldable pub next_resource_fence : Job → Table ℕ → ℕ × Table ℕ
next_resource_fence j fences =
    let last = last_fence j fences in
    let fence = add64 (if slt last j.fence then j.fence else last) 1 in
    (fence, insert (resource_fence_key j) fence fences)

unfoldable pub is_claimable : ℕ → Job → Bool
is_claimable now j = (j.state == "queued" || j.state == "retrying") && leb j.run_after now

-- The test that replaces the best job so far.
unfoldable pub goes_before : Job → Job → Bool
goes_before j best =
    slt j.priority best.priority
    || (seq j.priority best.priority && ltb j.created_at best.created_at)

unfoldable pub better : ℕ → String × Job → Option (String × Job) → Option (String × Job)
better now (k, j) none = if is_claimable now j then some (k, j) else none
better now (k, j) (some (i, best)) =
    if is_claimable now j && goes_before j best then some (k, j) else some (i, best)

unfoldable pub best_job : ℕ → Option (String × Job) → Table Job → Option (String × Job)
best_job now best [] = best
best_job now best (e ∷ t) = best_job now (better now e best) t

unfoldable pub claimed : Env → (ℕ → String) → String → ℕ → Job → Job
claimed env print worker fence best = record best {
  state = "running";
  locked_by = worker;
  started_at = some env.now;
  heartbeat_at = some env.now;
  lease_expires = some (env.now + job_lease_ttl);
  fence = fence;
  operation_id = job_operation_id print best.id fence;
  cancel_requested = false;
  attempts = add64 best.attempts 1;
}

-- A claim of the best job, under its key in the map.
unfoldable pub lease :
    Env → (ℕ → String) → String → Option (String × Job) → Memory → Memory × Option Job
lease env print worker none m = (m, none)
lease env print worker (some (k, best)) m =
    let (fence, fences) = next_resource_fence best m.resource_fences in
    let j = claimed env print worker fence best in
    (record m { jobs = insert k j m.jobs; resource_fences = fences }, some j)

unfoldable pub claim_job : Env → (ℕ → String) → String → Memory → Memory × Option Job
claim_job env print worker m = lease env print worker (best_job env.now none m.jobs) m

unfoldable pub heartbeat_job : Env → String → String → ℕ → Memory → Memory × Result (Unit {0})
heartbeat_job env job_id owner fence = run do
  m ← get
  j ← given (lookup job_id m.jobs) job_not_found
  refuse (not (j.state == "running") || not (j.locked_by == owner) || not (nat_eq j.fence fence))
      stale_fence
  let j' = record j { heartbeat_at = some env.now; lease_expires = some (env.now + job_lease_ttl) }
  modify (λ s. record s { jobs = insert job_id j' s.jobs })

-- Whether a running job's lease, or its heartbeat, is over.
unfoldable pub is_expired : ℕ → Job → Bool
is_expired now j =
    let late : Bool = elim j.heartbeat_at [ none ↦ false | some t ↦ ltb job_lease_ttl (now - t) ] in
    elim j.lease_expires [ none ↦ late | some t ↦ if leb t now then true else late ]

unfoldable pub reaped : ℕ → ℕ → Job → Job
reaped clock fence j = record j {
  state = "retrying";
  locked_by = "";
  lease_expires = none;
  heartbeat_at = none;
  fence = fence;
  operation_id = "";
  cancel_requested = false;
  run_after = clock;
}

unfoldable pub is_stale : ℕ → Job → Bool
is_stale now j = j.state == "running" && is_expired now j

unfoldable pub expire_loop : ℕ → ℕ → Table Job → Table ℕ → Table Job × Table ℕ
expire_loop now clock [] fences = ([], fences)
expire_loop now clock ((k, j) ∷ t) fences =
    let (fence, fences') = next_resource_fence j fences in
    let (t', last) = expire_loop now clock t (if is_stale now j then fences' else fences) in
    ((k, if is_stale now j then reaped clock fence j else j) ∷ t', last)

unfoldable pub expire_stale_leases : Env → ℕ → Memory → Memory
expire_stale_leases env now m =
    let (jobs, fences) = expire_loop now env.now m.jobs m.resource_fences in
    record m { jobs = jobs; resource_fences = fences }

unfoldable pub bump_resource_fence : String → Memory → Memory × ℕ
bump_resource_fence key m =
    let last : ℕ = elim (lookup key m.resource_fences) [ none ↦ 0 | some n ↦ n ] in
    let fence = add64 last 1 in
    (record m { resource_fences = insert key fence m.resource_fences }, fence)
