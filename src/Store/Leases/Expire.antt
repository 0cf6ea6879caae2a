-- ===== src/Store/Leases/Expire.antt =====
-- ExpireStaleLeases of internal/store/memory.go, job by job.
use kelmor.Base.{
  ℕ, zero, suc, ◌+◌, ◌-◌, ◌<◌, ◌≤◌, String, ◌≡◌, ◌≢◌, refl, ◌⊎◌, inl, inr, true, false, none, some,
  [], ◌∷◌, arith, subst, Bool-cases, Option-cases, ◌==◌, eq_iff, eq→≡, ltb, length,
}
use mathlib.Core.Option.{some-injective}
use kelmor.Base.Table.{Table, lookup}
use kelmor.Store.Models.{Job}
use kelmor.Store.Memory.{Memory}
use kelmor.Store.Op.{Env}
use kelmor.Store.Leases.{
  is_expired, is_stale, reaped, expire_loop, expire_stale_leases, next_resource_fence,
}
use kelmor.Store.Leases.Fences.{
  FencesBelow, JobsBelow, FencesBelow-pred, JobsBelow-pred, last_fence-below,
  next_resource_fence_above, next_resource_fence-FencesBelow,
}

-- A running job whose lease has ended, or which has sent no heartbeat for two minutes.
pub data IsOver (now : ℕ) (j : Job) : Type 0 where
  lease_over : {t : ℕ} → j.lease_expires ≡ some t → t ≤ now → IsOver now j
  silent : {t : ℕ} → j.heartbeat_at ≡ some t → t + 120000000000 < now → IsOver now j

-- A running job whose lease has not ended, and whose last heartbeat is not that old.
pub record IsHeld (now : ℕ) (j : Job) : Type 0 where
  pub leased : (j.lease_expires ≡ none) ⊎ ((t : ℕ) × (j.lease_expires ≡ some t) × (now < t))
  pub beating :
      (j.heartbeat_at ≡ none) ⊎ ((t : ℕ) × (j.heartbeat_at ≡ some t) × (now ≤ t + 120000000000))

-- A job before and after a reap: kept, or put back under a higher fence.
pub data Reaps (now clock : ℕ) (old new : Job) : Type 0 where
  kept : (old.state ≢ "running") ⊎ IsHeld now old → new ≡ old → Reaps now clock old new
  put_back :
      old.state ≡ "running"
      → IsOver now old
      → old.fence < new.fence
      → new ≡ record old {
        state = "retrying";
        locked_by = "";
        lease_expires = none;
        heartbeat_at = none;
        fence = new.fence;
        operation_id = "";
        cancel_requested = false;
        run_after = clock;
      }
      → Reaps now clock old new

-- What the reaped job is, and that it was over or not, on the options that hold its times.
is_expired-IsOver : (now : ℕ) (j : Job) → is_expired now j ≡ true → IsOver now j
unfolding is_expired
is_expired-IsOver now j h = elim (Option-cases j.heartbeat_at) [
  | inl b ↦ elim (Option-cases j.lease_expires) [
    | inl l ↦ cc (rw (l, b) at h)
    | inr (t, l) ↦ lease_over l (ground (arith, rw (l, b) at h))
  ]
  | inr (u, b) ↦ elim (Bool-cases (ltb 120000000000 (now - u))) [
    | inl y ↦ silent b (ground arith)
    | inr n ↦ elim (Option-cases j.lease_expires) [
      | inl l ↦ cc (rw (l, b) at h, n)
      | inr (t, l) ↦ lease_over l (ground (arith, rw (l, b) at h, n))
    ]
  ]
]

is_expired-IsHeld : (now : ℕ) (j : Job) → is_expired now j ≡ false → IsHeld now j
unfolding is_expired
is_expired-IsHeld now j h = record {
  leased = elim (Option-cases j.lease_expires) [
    | inl l ↦ inl l
    | inr (t, l) ↦ inr (t, l, ground (arith, rw l at h))
  ];
  beating = elim (Option-cases j.heartbeat_at) [
    | inl b ↦ inl b
    | inr (u, b) ↦ inr (
      u,
      b,
      elim (Option-cases j.lease_expires) [
        | inl l ↦ ground (arith, rw (l, b) at h)
        | inr (t, l) ↦ ground (arith, rw (l, b) at h)
      ],
    )
  ];
}

stale-Reaps :
    (now clock fence : ℕ) (j : Job)
    → is_stale now j ≡ true
    → j.fence < fence
    → Reaps now clock j (reaped clock fence j)
unfolding is_stale reaped
stale-Reaps now clock fence j h above =
    put_back (eq→≡ j.state "running" (ground arith)) (is_expired-IsOver now j (ground arith)) above
      refl

held-Reaps : (now clock : ℕ) (j : Job) → is_stale now j ≡ false → Reaps now clock j j
unfolding is_stale
held-Reaps now clock j h = elim (Bool-cases (j.state == "running")) [
  | inl y ↦ kept (inr (is_expired-IsHeld now j (ground arith))) refl
  | inr n ↦ kept (inl (λ e. ground (arith, (eq_iff j.state "running").1 e))) refl
]

expire_loop-lookup :
    (now clock n : ℕ) (k : String) (t : Table Job) (fences : Table ℕ) {old : Job}
    → length t ≤ n
    → JobsBelow (suc n) t
    → FencesBelow (suc n) fences
    → lookup k t ≡ some old
    → (new : Job) × (lookup k (expire_loop now clock t fences).0 ≡ some new)
      × Reaps now clock old new
unfolding expire_loop lookup
expire_loop-lookup now clock n k [] fences l jb fb e = cc
expire_loop-lookup now clock zero k ((i, j) ∷ t) fences l jb fb e = absurd (omega arith)
expire_loop-lookup now clock (suc n) k ((i, j) ∷ t) fences {old} l jb fb e =
    elim (Bool-cases (is_stale now j)) [
      | inl y ↦ elim (Bool-cases (i == k)) [
        | inl hit ↦
            rw (y, hit)
              (subst (λ o. (new : Job) × (some fresh ≡ some new) × Reaps now clock o new)
                (some-injective _ _ (rw hit at e))
                (fresh, refl, stale-Reaps now clock fence j y above))
        | inr miss ↦
            rw (y, miss)
              (expire_loop-lookup now clock n k t (next_resource_fence j fences).1 (omega arith)
                (JobsBelow-pred (suc n) t jb.1)
                (next_resource_fence-FencesBelow (suc n) j fences jb.0 fb).0 (rw miss at e))
      ]
      | inr held ↦ elim (Bool-cases (i == k)) [
        | inl hit ↦
            rw (held, hit)
              (subst (λ o. (new : Job) × (some j ≡ some new) × Reaps now clock o new)
                (some-injective _ _ (rw hit at e)) (j, refl, held-Reaps now clock j held))
        | inr miss ↦
            rw (held, miss)
              (expire_loop-lookup now clock n k t fences (omega arith)
                (JobsBelow-pred (suc n) t jb.1) (FencesBelow-pred (suc n) fences fb) (rw miss at e))
      ]
    ]
  where
    fence : ℕ
    fence = (next_resource_fence j fences).0

    fresh : Job
    fresh = reaped clock fence j

    above : j.fence < fence
    above =
        (next_resource_fence_above j fences (omega arith)
          (omega (arith, last_fence-below (suc (suc n)) j fences (omega arith) fb))).1

-- Let every fence have room below 2^63 for one more than there are jobs. Then
-- ExpireStaleLeases keeps every job. One that was running with its lease ended, or with no
-- heartbeat for over two minutes, becomes retrying and due at once, with no holder, lease, heartbeat,
-- operation id or request to cancel, under a higher fence, and is otherwise as it was. Every other
-- job is unchanged.
pub expire_stale_leases-Reaps :
    (env : Env) (now : ℕ) (k : String) (m : Memory) (old : Job)
    → JobsBelow (suc (length m.jobs)) m.jobs
    → FencesBelow (suc (length m.jobs)) m.resource_fences
    → lookup k m.jobs ≡ some old
    → (new : Job) × (lookup k (expire_stale_leases env now m).jobs ≡ some new)
      × Reaps now env.now old new
unfolding expire_stale_leases
expire_stale_leases-Reaps env now k m old jb fb e =
    expire_loop-lookup now env.now (length m.jobs) k m.jobs m.resource_fences (omega arith) jb fb e
