-- ===== src/Store/Leases/Claim.antt =====
-- ClaimJob of internal/store/memory.go: the job it picks and the lease it writes.
use kelmor.Base.{
  ℕ, ◌+◌, ◌<◌, ◌≤◌, String, ◌⧺◌, ◌≡◌, ◌≢◌, refl, ◌⊎◌, inl, inr, false, true, none, some, ap, sym,
  subst, ◌∙◌, arith, eq_iff, eq→≡, ◌==◌, Bool-cases, Option-cases, add64, slt, sle, seq, leb,
  if◌then◌else◌,
}
use mathlib.Core.Option.{some-injective}
use kelmor.Base.Table.{Table, Entries, Entries-map, Occurs, insert, lookup}
use kelmor.Store.Models.{Job}
use kelmor.Store.Memory.{Memory}
use kelmor.Store.Op.{Env}
use kelmor.Store.Leases.{
  is_claimable, goes_before, best_job, claimed, lease, claim_job, next_resource_fence,
  resource_fence_key, last_fence, job_operation_id,
}
use kelmor.Store.Leases.Best.{Unbeaten, Picked, best_job_lem, best_job-none}

-- A job that waits for a worker: queued or retrying, and due.
pub record Waits (now : ℕ) (j : Job) : Type 0 where
  pub waiting : (j.state ≡ "queued") ⊎ (j.state ≡ "retrying")
  pub due : j.run_after ≤ now

is_claimable-Waits : (now : ℕ) (j : Job) → is_claimable now j ≡ true → Waits now j
unfolding is_claimable
is_claimable-Waits now j h = record {
  waiting = elim (Bool-cases (j.state == "queued")) [
    | inl y ↦ inl (eq→≡ j.state "queued" y)
    | inr n ↦ inr (eq→≡ j.state "retrying" (ground arith))
  ];
  due = ground arith;
}

-- A job that a claim leaves behind the best one: it does not wait, or has a larger priority number,
-- or the same one and was not made earlier.
pub data Behind (now : ℕ) (best c : Job) : Type 0 where
  idle : c.state ≢ "queued" → c.state ≢ "retrying" → Behind now best c
  not_due : now < c.run_after → Behind now best c
  less_urgent : slt best.priority c.priority ≡ true → Behind now best c
  not_older :
      seq best.priority c.priority ≡ true → best.created_at ≤ c.created_at → Behind now best c

Unbeaten-Behind :
    (now : ℕ) (best : Job) (k : String) (c : Job) → Unbeaten now best k c → Behind now best c
unfolding is_claimable goes_before
Unbeaten-Behind now best k c h = elim (Bool-cases (is_claimable now c)) [
  | inl y ↦ elim (Bool-cases (slt best.priority c.priority)) [
    | inl less ↦ less_urgent less
    | inr same ↦ not_older (ground arith) (ground arith)
  ]
  | inr n ↦ elim (Bool-cases (leb c.run_after now)) [
    | inl due ↦
        idle (λ e. ground (arith, (eq_iff c.state "queued").1 e))
          (λ e. ground (arith, (eq_iff c.state "retrying").1 e))
    | inr late ↦ not_due (ground arith)
  ]
]

-- The key under which the fences of a job's resource are remembered.
pub data IsKeyOf (j : Job) (key : String) : Type 0 where
  of_job : j.resource_type ≡ "" → j.resource_id ≡ "" → key ≡ "job/" ⧺ j.id → IsKeyOf j key
  of_resource :
      (j.resource_type ≢ "") ⊎ (j.resource_id ≢ "")
      → key ≡ j.resource_type ⧺ ("/" ⧺ j.resource_id)
      → IsKeyOf j key

-- The fence is one more than the larger of the job's own and the last one under the key, which is 0
-- if there is none.
pub record IsNextFence (j : Job) (key : String) (fences : Table ℕ) (fence : ℕ) : Type 0 where
  pub last : ℕ
  pub remembered : (lookup key fences ≡ some last) ⊎ ((lookup key fences ≡ none) × (last ≡ 0))
  pub from : ℕ
  pub larger :
      ((from ≡ j.fence) ⊎ (from ≡ last)) × (sle j.fence from ≡ true) × (sle last from ≡ true)
  pub next : fence ≡ add64 from 1

resource_fence_key-IsKeyOf : (j : Job) → IsKeyOf j (resource_fence_key j)
unfolding resource_fence_key
resource_fence_key-IsKeyOf j = elim (Bool-cases (j.resource_type == "")) [
  | inl t ↦ elim (Bool-cases (j.resource_id == "")) [
    | inl i ↦ of_job (eq→≡ j.resource_type "" t) (eq→≡ j.resource_id "" i) (rw (t, i) refl)
    | inr i ↦
        of_resource (inr (λ e. ground (arith, (eq_iff j.resource_id "").1 e))) (rw (t, i) refl)
  ]
  | inr t ↦ of_resource (inl (λ e. ground (arith, (eq_iff j.resource_type "").1 e))) (rw t refl)
]

next_resource_fence-IsNextFence :
    (j : Job) (fences : Table ℕ)
    → IsNextFence j (resource_fence_key j) fences (next_resource_fence j fences).0
unfolding next_resource_fence last_fence
next_resource_fence-IsNextFence j fences = record {
  last = last_fence j fences;
  remembered = elim (Option-cases (lookup (resource_fence_key j) fences)) [
    | inl e ↦ inr (e, rw (e, last_fence) refl)
    | inr (f, e) ↦ inl (rw (e, last_fence) refl)
  ];
  from = if slt (last_fence j fences) j.fence then j.fence else last_fence j fences;
  larger = elim (Bool-cases (slt (last_fence j fences) j.fence)) [
    | inl y ↦ rw y (inl refl, ground arith, ground arith)
    | inr n ↦ rw n (inr refl, ground arith, ground arith)
  ];
  next = refl;
}

module _ (env : Env) (print : ℕ → String) (worker : String) (m : Memory) where
  abbrev after : String → Job → Table ℕ → Memory
  after k a fences = record m { jobs = insert k a m.jobs; resource_fences = fences }

  -- The job handed out, in terms of the steps of the claim.
  pub record Takes (j : Job) : Type 0 where
    pub key : String
    pub best : Job
    pub occurs : Occurs key best m.jobs
    pub claimable : is_claimable env.now best ≡ true
    pub unbeaten : Entries (Unbeaten env.now best) m.jobs
    pub leased : j ≡ claimed env print worker (next_resource_fence best m.resource_fences).0 best
    pub memory : (claim_job env print worker m).0 ≡ record m {
      jobs = insert key j m.jobs;
      resource_fences = (next_resource_fence best m.resource_fences).1;
    }

  -- When ClaimJob hands out nothing, no stored job is due and queued or retrying.
  pub claim_job-none :
      (claim_job env print worker m).1 ≡ none
      → Entries (λ k j. is_claimable env.now j ≡ false) m.jobs
  unfolding claim_job lease
  claim_job-none e = elim (Option-cases (best_job env.now none m.jobs)) [
    | inl n ↦ (best_job-none env.now none m.jobs n).1
    | inr (b, s) ↦ cc (s)
  ]

  pub claim_job_lem : (j : Job) → (claim_job env print worker m).1 ≡ some j → Takes j
  unfolding claim_job lease
  claim_job_lem j e = elim (Option-cases (best_job env.now none m.jobs)) [
    | inl n ↦ cc (n)
    | inr ((k, b), s) ↦
        let picked : Picked env.now none m.jobs k b = best_job_lem env.now none m.jobs s in
        let fence = (next_resource_fence b m.resource_fences).0 in
        let taken : j ≡ claimed env print worker fence b =
          sym (some-injective _ _ (sym (ap (λ o. (lease env print worker o m).1) s) ∙ e)) in
        elim picked.0 [
          | inl p ↦ cc
          | inr o ↦ record {
            key = k;
            best = b;
            occurs = o.0;
            claimable = o.1;
            unbeaten = picked.2;
            leased = taken;
            memory =
                ap (λ o. (lease env print worker o m).0) s
                ∙ ap (λ a. after k a (next_resource_fence b m.resource_fences).1) (sym taken);
          }
        ]
  ]

  -- The job handed out is a stored one that waited, with no job before it, as the worker's lease.
  pub record Claims (j : Job) : Type 0 where
    pub key : String
    pub best : Job
    pub occurs : Occurs key best m.jobs
    pub waits : Waits env.now best
    pub behind : Entries (λ k c. Behind env.now best c) m.jobs
    pub resource : String
    pub resource_key : IsKeyOf best resource
    pub fenced : IsNextFence best resource m.resource_fences j.fence
    pub leased : j ≡ record best {
      state = "running";
      locked_by = worker;
      started_at = some env.now;
      heartbeat_at = some env.now;
      lease_expires = some (env.now + 120000000000);
      fence = j.fence;
      operation_id = best.id ⧺ (":" ⧺ print j.fence);
      cancel_requested = false;
      attempts = add64 best.attempts 1;
    }
    pub stored : (claim_job env print worker m).0 ≡ record m {
      jobs = insert key j m.jobs;
      resource_fences = insert resource j.fence m.resource_fences;
    }

  -- When ClaimJob hands a job out, a job was stored that was queued or retrying and due. Every
  -- other stored job is neither queued nor retrying, or is not due, or has a larger priority number,
  -- or the same one and was not made earlier. What is handed out is the stored job running, locked
  -- by the worker, started and with a heartbeat now, its lease over in two minutes, its cancellation
  -- withdrawn, one more attempt counted, and under a fence that is one more (as an int64) than the
  -- larger of its own and the last one of its resource; its operation id is its id and the fence.
  -- It is stored under its key, the fence is remembered for the resource, and nothing else changes.
  pub claim_job-some : (j : Job) → (claim_job env print worker m).1 ≡ some j → Claims j
  unfolding claimed next_resource_fence job_operation_id
  claim_job-some j e =
      let t : Takes j = claim_job_lem j e in
      let same : j.fence ≡ (next_resource_fence t.best m.resource_fences).0 =
        ap (λ a. a.fence) t.leased in
      record {
        key = t.key;
        best = t.best;
        occurs = t.occurs;
        waits = is_claimable-Waits env.now t.best t.claimable;
        behind = Entries-map _ _ m.jobs (Unbeaten-Behind env.now t.best) t.unbeaten;
        resource = resource_fence_key t.best;
        resource_key = resource_fence_key-IsKeyOf t.best;
        fenced =
            subst (IsNextFence t.best (resource_fence_key t.best) m.resource_fences) (sym same)
              (next_resource_fence-IsNextFence t.best m.resource_fences);
        leased = t.leased ∙ ap (λ f. claimed env print worker f t.best) (sym same);
        stored = t.memory ∙ ap (λ f. written t.key j (resource_fence_key t.best) f) (sym same);
      }
    where
      written : String → Job → String → ℕ → Memory
      written k a r f = record m {
        jobs = insert k a m.jobs;
        resource_fences = insert r f m.resource_fences;
      }
