-- ===== src/Agent/Order.antt =====
-- The order of fences in the agent: Dispatch of agent/operations/ops.go with acceptFence and
-- rememberFence of agent/operations/fence.go.
use kelmor.Base.{
  String, ◌≡◌, ◌≢◌, refl, sym, subst, ap, ◌∙◌, ◌⊎◌, inl, inr, true, false, not, ◌&&◌, Option, none,
  arith, ◌==◌, nat_eq, slt, Option-cases, Bool-cases, eq_refl,
}
use kelmor.Base.Table.{lookup-insert}
use kelmor.Agent.Fences.{
  Request, FenceRecord, AgentError, stale_resource_fence, Host, Verdict, refused, replayed,
  accepted, fence_key, loaded, ensure_fences, load_fence, store_fence, is_replay, judge,
  accept_fence, remember_fence, record_of,
}
use kelmor.Agent.Dispatch.{
  Reply, done, failed, Services, settle, obey, on_disk, with_bound, carry_out, dispatch,
}

pub refused_not_done : {A : Type 0} {x : AgentError} {a : A} → failed x ≢ done a
refused_not_done e = cc (e)

pub done-injective : {A : Type 0} {a b : A} → done a ≡ done b → a ≡ b
done-injective {a = a} e = ap (λ r. elim r [ done x ↦ x | failed x ↦ a ]) e

module _ {D A : Type 0} (s : Services D A) where
  abbrev pub recorded : String → Host D → FenceRecord
  recorded k h = load_fence s.read s.write s.fingerprint k h

  load-store :
      (k : String) (r : FenceRecord) (h : Host D)
      → recorded k (store_fence s.read s.write s.fingerprint k r h) ≡ r
  unfolding load_fence store_fence loaded
  load-store k r h =
      ground (arith, lookup-insert k k r (loaded s.read s.write s.fingerprint h), eq_refl k)

  abbrev remember : Request → AgentError ⊎ String → Host D → Host D × Option AgentError
  remember req m h = remember_fence s.read s.write s.fingerprint req m h

  abbrev written : Request → String → FenceRecord
  written req raw = record_of s.read s.write s.fingerprint req raw

  -- The host has a record of the request and its result.
  abbrev pub Holds : Request → A → Host D → Type 0
  Holds req a h =
      (raw : String) × (s.marshal a ≡ inr raw) × (recorded (fence_key req.env) h ≡ written req raw)

  remember-recorded :
      (req : Request) (m : AgentError ⊎ String) (h : Host D)
      → req.env.fence ≢ 0
      → (fence_key req.env == "") ≡ false
      → (remember req m h).1 ≡ none
      → (raw : String) × (m ≡ inr raw)
        × (recorded (fence_key req.env) (remember req m h).0 ≡ written req raw)
  unfolding remember_fence
  remember-recorded req (inl x) h f k e = absurd (ground arith)
  remember-recorded req (inr raw) h f k e =
      (raw, refl, ground (arith, load-store (fence_key req.env) (written req raw) h))

  settle-recorded :
      (req : Request) (h : Host D) (r : Reply A) {a : A}
      → req.env.fence ≢ 0
      → (fence_key req.env == "") ≡ false
      → (settle s req (h, r)).1 ≡ done a
      → Holds req a (settle s req (h, r)).0
  settle-recorded req h (failed x) f k e = absurd (refused_not_done e)
  settle-recorded req h (done b) {a} f k e = elim (Option-cases (remember req (s.marshal b) h).1) [
    | inl n ↦
        subst (λ c. Holds req c (settle s req (h, done b)).0) (done-injective (rw (settle, n) at e))
          (rw (settle, n) (remember-recorded req (s.marshal b) h f k n))
    | inr (x, bad) ↦ absurd (refused_not_done (rw (settle, bad) at e))
  ]

  pub carry_out_here :
      (req : Request) (h : Host D)
      → s.before req ≡ none
      → s.remote ≡ none
      → carry_out s req h ≡ settle s req (on_disk s s.perform req h)
  unfolding carry_out
  carry_out_here req h n here = ground arith

  -- The record of a request that was carried out here.
  pub carry_out-recorded :
      (req : Request) (h : Host D) {a : A}
      → s.remote ≡ none
      → req.env.fence ≢ 0
      → (fence_key req.env == "") ≡ false
      → (carry_out s req h).1 ≡ done a
      → Holds req a (carry_out s req h).0
  unfolding carry_out
  carry_out-recorded req h {a} here f k e = elim (Option-cases (s.before req)) [
    | inl n ↦
        let here' = carry_out_here req h n here in
        subst (λ p. Holds req a p.0) (sym here')
          (settle-recorded req (record h { disk = (s.perform req h.disk).0 })
            (s.perform req h.disk).1 f k (sym (ap (λ p. p.1) here') ∙ e))
    | inr (x, bad) ↦ absurd (refused_not_done (rw (carry_out, bad) at e))
  ]

  pub judge_cases :
      (r : FenceRecord) (req : Request)
      → (judge s.read s.write s.fingerprint r req ≡ refused stale_resource_fence)
        ⊎ ((judge s.read s.write s.fingerprint r req ≡ replayed r.receipt)
            × (r.fence ≡ req.env.fence))
        ⊎ (judge s.read s.write s.fingerprint r req ≡ accepted)
  unfolding judge is_replay
  judge_cases r req = elim (Bool-cases (slt req.env.fence r.fence)) [
    | inl late ↦ inl (ground arith)
    | inr fresh ↦ elim (Bool-cases (is_replay s.read s.write s.fingerprint r req)) [
      | inl again ↦ inr (inl (ground arith, ground arith))
      | inr new ↦
          elim (Bool-cases (
            nat_eq r.fence req.env.fence
            && (not (r.operation_id == "") && not (r.operation_id == req.env.operation_id)))) [
              | inl other ↦ inl (ground arith)
              | inr same ↦ inr (inr (ground arith))
            ]
    ]
  ]

  dispatch_own :
      (req : Request) (h : Host D)
      → req.env.fence ≢ 0
      → dispatch s none req h ≡ obey s req (accept_fence s.read s.write s.fingerprint req h)
  unfolding dispatch with_bound
  dispatch_own req h f = ground arith

  accept_fence_fenced :
      (req : Request) (h : Host D)
      → req.env.fence ≢ 0
      → (fence_key req.env == "") ≡ false
      → accept_fence s.read s.write s.fingerprint req h ≡ (
        ensure_fences s.read s.write s.fingerprint h,
        judge s.read s.write s.fingerprint (recorded (fence_key req.env) h) req,
      )
  unfolding accept_fence
  accept_fence_fenced req h f k = ground arith

  pub dispatch_keyed :
      (req : Request) (h : Host D) {a : A}
      → req.env.fence ≢ 0
      → (dispatch s none req h).1 ≡ done a
      → (fence_key req.env == "") ≡ false
  unfolding dispatch with_bound accept_fence
  dispatch_keyed req h f e = ground arith

  pub recorded-ensure :
      (k : String) (h : Host D)
      → recorded k (ensure_fences s.read s.write s.fingerprint h) ≡ recorded k h
  unfolding load_fence ensure_fences loaded
  recorded-ensure k h = refl

  -- What Dispatch does once the verdict on the request is known.
  pub dispatch_as :
      (req : Request) (h : Host D) (v : Verdict)
      → req.env.fence ≢ 0
      → (fence_key req.env == "") ≡ false
      → judge s.read s.write s.fingerprint (recorded (fence_key req.env) h) req ≡ v
      → dispatch s none req h ≡ obey s req (ensure_fences s.read s.write s.fingerprint h, v)
  dispatch_as req h v f k e =
      dispatch_own req h f
      ∙ ap (obey s req) (accept_fence_fenced req h f k)
      ∙ ap (λ w. obey s req (ensure_fences s.read s.write s.fingerprint h, w)) e

  -- Whoever got a result from Dispatch has the fence that the agent remembers.
  pub dispatch-recorded :
      (req : Request) (h : Host D) {a : A}
      → s.remote ≡ none
      → req.env.fence ≢ 0
      → (dispatch s none req h).1 ≡ done a
      → (recorded (fence_key req.env) (dispatch s none req h).0).fence ≡ req.env.fence
  dispatch-recorded req h here f e =
      let k = dispatch_keyed req h f e in
      let key = fence_key req.env in
      let fresh = ensure_fences s.read s.write s.fingerprint h in
      elim (judge_cases (recorded key h) req) [
        | inl stale ↦
            let way = dispatch_as req h (refused stale_resource_fence) f k stale in
            absurd (refused_not_done (sym (ap (λ p. p.1) way) ∙ e))
        | inr (inl (again, same)) ↦
            ap (λ p. (recorded key p.0).fence) (dispatch_as req h _ f k again)
            ∙ ap (λ r. r.fence) (recorded-ensure key h)
            ∙ same
        | inr (inr new) ↦
            let way = dispatch_as req h accepted f k new in
            ap (λ p. (recorded key p.0).fence) way
            ∙ ap (λ r. r.fence)
                (carry_out-recorded req fresh here f k (sym (ap (λ p. p.1) way) ∙ e)).2
      ]

  -- Once Dispatch has answered a request that has a fence, on the host itself, a request for the
  -- same resource under a lower fence is refused as stale, and nothing is done for it: the disk
  -- stays as it was.
  pub dispatch-supersedes :
      (req old : Request) (h : Host D) {a : A}
      → s.remote ≡ none
      → req.env.fence ≢ 0
      → (dispatch s none req h).1 ≡ done a
      → old.env.fence ≢ 0
      → fence_key old.env ≡ fence_key req.env
      → slt old.env.fence req.env.fence ≡ true
      → let h' = (dispatch s none req h).0 in
        ((dispatch s none old h').1 ≡ failed stale_resource_fence)
        × ((dispatch s none old h').0.disk ≡ h'.disk)
  unfolding judge dispatch ensure_fences
  dispatch-supersedes req old h here f e g key late = (ap (λ p. p.1) way, ap (λ p. p.0.disk) way)
    where
      h' : Host D
      h' = (dispatch s none req h).0

      last : (recorded (fence_key old.env) h').fence ≡ req.env.fence
      last = ap (λ k. (recorded k h').fence) key ∙ dispatch-recorded req h here f e

      stale :
          judge s.read s.write s.fingerprint (recorded (fence_key old.env) h') old
          ≡ refused stale_resource_fence
      stale = rw (last, late) refl

      way :
          dispatch s none old h'
          ≡ obey s old (ensure_fences s.read s.write s.fingerprint h', refused stale_resource_fence)
      way =
          dispatch_as old h' (refused stale_resource_fence) g
            (ap (λ k. k == "") key ∙ dispatch_keyed req h f e) stale
