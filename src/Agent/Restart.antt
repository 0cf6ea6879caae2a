-- ===== src/Agent/Restart.antt =====
-- A restart of the agent: ensureFences and persistFences of agent/operations/fence.go, over runs of
-- Dispatch (agent/operations/ops.go).
use kelmor.Base.{
  ◌⊎◌, String, ◌≡◌, refl, sym, ap, Option, none, some, inl, inr, List, [], ◌∷◌, arith, Option-cases,
  subst, Bool-cases, nat_eq, ◌==◌,
}
use kelmor.Base.Table.{Table, lookup}
use kelmor.Agent.Fences.{
  Request, FenceRecord, AgentError, Host, Verdict, refused, replayed, accepted, loaded,
  ensure_fences, store_fence, accept_fence, remember_fence, fence_key, load_fence, record_of, judge,
  no_record,
}
use kelmor.Agent.Dispatch.{
  Reply, done, failed, Services, settle, obey, carry_out, dispatch, with_bound,
}
use kelmor.Agent.Order.{carry_out_here}

module _ {D A : Type 0} (s : Services D A) where
  -- The agent after its process was started again: the map of fences is nil.
  abbrev pub restart : Host D → Host D
  restart h = record h { fences = none }

  abbrev fences_of : Host D → Table FenceRecord
  fences_of h = loaded s.read s.write s.fingerprint h

  -- The file has the fences that the agent goes by.
  abbrev pub Synced : Host D → Type 0
  Synced h = fences_of (restart h) ≡ fences_of h

  -- Calls of Dispatch, one after the other.
  unfoldable pub dispatch_all : List (Option AgentError × Request) → Host D → Host D
  dispatch_all [] h = h
  dispatch_all ((c, r) ∷ rs) h = dispatch_all rs (dispatch s c r h).0

  -- What is written is read again, and methods leave the file of fences alone.
  pub record Persists : Type 0 where
    pub written : (t : Table FenceRecord) (d : D) → s.read (s.write t d) ≡ some t
    pub kept : (r : Request) (d : D) → s.read (s.perform r d).0 ≡ s.read d
    pub here : s.remote ≡ none

  disk-Synced :
      (h : Host D) (d : D) → s.read d ≡ s.read h.disk → Synced h → Synced (record h { disk = d })
  unfolding loaded
  disk-Synced h d e y = ground arith

  store-Synced :
      (k : String) (r : FenceRecord) (h : Host D)
      → Persists
      → Synced (store_fence s.read s.write s.fingerprint k r h)
  unfolding loaded store_fence
  store-Synced k r h p = rw p.written refl

  ensure-Synced : (h : Host D) → Synced h → Synced (ensure_fences s.read s.write s.fingerprint h)
  unfolding loaded ensure_fences
  ensure-Synced h y = y

  abbrev remembered : Request → AgentError ⊎ String → Host D → Host D
  remembered req m h = (remember_fence s.read s.write s.fingerprint req m h).0

  remember_cases :
      (req : Request) (m : AgentError ⊎ String) (h : Host D)
      → (remembered req m h ≡ h)
        ⊎ ((r : FenceRecord) × (remembered req m h
              ≡ store_fence s.read s.write s.fingerprint (fence_key req.env) r h))
  unfolding remember_fence
  remember_cases req (inl x) h = inl (ground arith)
  remember_cases req (inr raw) h = elim (Bool-cases (nat_eq req.env.fence 0)) [
    | inl z ↦ inl (ground arith)
    | inr f ↦ elim (Bool-cases (fence_key req.env == "")) [
      | inl e ↦ inl (ground arith)
      | inr k ↦ inr (record_of s.read s.write s.fingerprint req raw, ground arith)
    ]
  ]

  remember-Synced :
      (req : Request) (m : AgentError ⊎ String) (h : Host D)
      → Persists
      → Synced h
      → Synced (remembered req m h)
  remember-Synced req m h p y = elim (remember_cases req m h) [
    | inl same ↦ subst Synced (sym same) y
    | inr (r, put) ↦ subst Synced (sym put) (store-Synced (fence_key req.env) r h p)
  ]

  settle-Synced :
      (req : Request) (h : Host D) (r : Reply A)
      → Persists
      → Synced h
      → Synced (settle s req (h, r)).0
  settle-Synced req h (failed x) p y = y
  settle-Synced req h (done b) p y =
      elim (Option-cases (remember_fence s.read s.write s.fingerprint req (s.marshal b) h).1) [
        | inl n ↦ rw (settle, n) (remember-Synced req (s.marshal b) h p y)
        | inr (x, bad) ↦ rw (settle, bad) (remember-Synced req (s.marshal b) h p y)
      ]

  carry_out-Synced :
      (req : Request) (h : Host D) → Persists → Synced h → Synced (carry_out s req h).0
  unfolding carry_out loaded
  carry_out-Synced req h p y = elim (Option-cases (s.before req)) [
    | inr (x, bad) ↦ rw (carry_out, bad) y
    | inl n ↦
        subst (λ q. Synced q.0) (sym (carry_out_here s req h n p.here))
          (settle-Synced req (record h { disk = (s.perform req h.disk).0 }) (s.perform req h.disk).1
            p (disk-Synced h _ (p.kept req h.disk) y))
  ]

  obey-Synced :
      (req : Request) (h : Host D) (v : Verdict)
      → Persists
      → Synced h
      → Synced (obey s req (h, v)).0
  obey-Synced req h (refused e) p y = y
  obey-Synced req h (replayed raw) p y = y
  obey-Synced req h accepted p y = carry_out-Synced req h p y

  accept-Synced :
      (req : Request) (h : Host D)
      → Synced h
      → Synced (accept_fence s.read s.write s.fingerprint req h).0
  unfolding accept_fence
  accept-Synced req h y = elim (Bool-cases (nat_eq req.env.fence 0)) [
    | inl z ↦ rw (accept_fence, z) y
    | inr f ↦ elim (Bool-cases (fence_key req.env == "")) [
      | inl e ↦ rw (accept_fence, f, e) y
      | inr k ↦ rw (accept_fence, f, k) (ensure-Synced h y)
    ]
  ]

  dispatch-Synced :
      (c : Option AgentError) (req : Request) (h : Host D)
      → Persists
      → Synced h
      → Synced (dispatch s c req h).0
  unfolding dispatch
  dispatch-Synced (some e) req h p y = y
  dispatch-Synced none req h p y =
      let r = with_bound req h in
      let a = accept_fence s.read s.write s.fingerprint r h in
      obey-Synced r a.0 a.1 p (accept-Synced r h y)

  dispatch_all-Synced :
      (rs : List (Option AgentError × Request)) (h : Host D)
      → Persists
      → Synced h
      → Synced (dispatch_all rs h)
  unfolding dispatch_all
  dispatch_all-Synced [] h p y = y
  dispatch_all-Synced ((c, r) ∷ rs) h p y =
      dispatch_all-Synced rs (dispatch s c r h).0 p (dispatch-Synced c r h p y)

  fresh-Synced : (h : Host D) → h.fences ≡ none → Synced h
  unfolding loaded
  fresh-Synced h e = rw e refl

  accept_fence-fences :
      (req : Request) (a b : Host D)
      → fences_of a ≡ fences_of b
      → (accept_fence s.read s.write s.fingerprint req a).1
        ≡ (accept_fence s.read s.write s.fingerprint req b).1
  unfolding accept_fence load_fence
  accept_fence-fences req a b e = elim (Bool-cases (nat_eq req.env.fence 0)) [
    | inl z ↦ rw z refl
    | inr f ↦ elim (Bool-cases (fence_key req.env == "")) [
      | inl y ↦ rw (f, y) refl
      | inr k ↦
          rw (f, k)
            (ap
              (λ t.
                judge s.read s.write s.fingerprint
                  (elim (lookup (fence_key req.env) t) [ none ↦ no_record | some r ↦ r ]) req)
              e)
    ]
  ]

  -- Let what is written to the file of fences be read again, and let methods leave that file alone.
  -- After any calls of Dispatch on the host itself, from an agent that has just started, a restart
  -- of the agent makes no difference to the verdict of acceptFence on any request.
  pub restart-accept_fence :
      (rs : List (Option AgentError × Request)) (req : Request) (h : Host D)
      → Persists
      → h.fences ≡ none
      → let h' = dispatch_all rs h in
        (accept_fence s.read s.write s.fingerprint req (restart h')).1
        ≡ (accept_fence s.read s.write s.fingerprint req h').1
  restart-accept_fence rs req h p new =
      accept_fence-fences req _ _ (dispatch_all-Synced rs h p (fresh-Synced h new))
