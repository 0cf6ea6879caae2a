-- ===== src/Agent/Once.antt =====
-- Requests that are sent again: the replays of acceptFence (agent/operations/fence.go) in Dispatch
-- of agent/operations/ops.go.
use kelmor.Base.{
  ◌==◌, ℕ, String, ◌≡◌, ◌≢◌, sym, ap, ◌∙◌, ◌⊎◌, inl, inr, none, arith, eq_refl, ne→eq_false, slt,
  false,
}
use kelmor.Agent.Fences.{
  Request, stale_resource_fence, Host, refused, replayed, accepted, fence_key, ensure_fences,
  is_replay, judge, record_of,
}
use kelmor.Agent.Dispatch.{done, Services, dispatch}
use kelmor.Agent.Order.{
  dispatch_as, dispatch_keyed, judge_cases, carry_out-recorded, recorded, refused_not_done,
  recorded-ensure, done-injective,
}

slt_irrefl : (n : ℕ) → slt n n ≡ false
slt_irrefl n = ground arith

module _ {D A : Type 0} (s : Services D A) where
  judge_again :
      (req : Request) (raw : String)
      → s.fingerprint req ≢ ""
      → raw ≢ ""
      → judge s.read s.write s.fingerprint (record_of s.read s.write s.fingerprint req raw) req
        ≡ replayed raw
  unfolding judge is_replay
  judge_again req raw p r = ground (
    arith,
    slt_irrefl req.env.fence,
    eq_refl req.env.operation_id,
    eq_refl req.method,
    eq_refl (s.fingerprint req),
    ne→eq_false (s.fingerprint req) "" p,
    ne→eq_false raw "" r,
  )

  -- A request whose record is held is answered from it.
  again_as :
      (req : Request) (h : Host D) (raw : String)
      → req.env.fence ≢ 0
      → (fence_key req.env == "") ≡ false
      → judge s.read s.write s.fingerprint (recorded s (fence_key req.env) h) req ≡ replayed raw
      → ((dispatch s none req h).1 ≡ done (s.unmarshal raw))
        × ((dispatch s none req h).0.disk ≡ h.disk)
  unfolding ensure_fences
  again_as req h raw f k e =
      let way = dispatch_as s req h (replayed raw) f k e in
      (ap (λ p. p.1) way, ap (λ p. p.0.disk) way)

  -- Let fingerprints and the JSON of results never be empty. When Dispatch has answered a request
  -- that has a fence, on the host itself, the same request sent again is answered from the receipt
  -- of that result, and nothing is done for it: the disk stays as it was.
  pub dispatch-once :
      (req : Request) (h : Host D) {a : A}
      → ((r : Request) → s.fingerprint r ≢ "")
      → ((b : A) (raw : String) → s.marshal b ≡ inr raw → raw ≢ "")
      → s.remote ≡ none
      → req.env.fence ≢ 0
      → (dispatch s none req h).1 ≡ done a
      → let h' = (dispatch s none req h).0 in
        (raw : String) × ((s.marshal a ≡ inr raw) ⊎ (a ≡ s.unmarshal raw))
        × ((dispatch s none req h').1 ≡ done (s.unmarshal raw))
        × ((dispatch s none req h').0.disk ≡ h'.disk)
  dispatch-once req h {a} print json here f e =
      let k = dispatch_keyed s req h f e in
      let key = fence_key req.env in
      let fresh = ensure_fences s.read s.write s.fingerprint h in
      elim (judge_cases s (recorded s key h) req) [
        | inl stale ↦
            let way = dispatch_as s req h (refused stale_resource_fence) f k stale in
            absurd (refused_not_done (sym (ap (λ p. p.1) way) ∙ e))
        | inr (inl (again, same)) ↦
            let way = dispatch_as s req h _ f k again in
            let raw = (recorded s key h).receipt in
            let second = again_as req (dispatch s none req h).0 raw f k (
              ap (λ p. judge s.read s.write s.fingerprint (recorded s key p.0) req) way
              ∙ ap (λ r. judge s.read s.write s.fingerprint r req) (recorded-ensure s key h)
              ∙ again) in
            (raw, inr (done-injective (sym e ∙ ap (λ p. p.1) way)), second.0, second.1)
        | inr (inr new) ↦
            let way = dispatch_as s req h accepted f k new in
            let held = carry_out-recorded s req fresh here f k (sym (ap (λ p. p.1) way) ∙ e) in
            let second = again_as req (dispatch s none req h).0 held.0 f k (
              ap (λ p. judge s.read s.write s.fingerprint (recorded s key p.0) req) way
              ∙ ap (λ r. judge s.read s.write s.fingerprint r req) held.2
              ∙ judge_again req held.0 (print req) (json a held.0 held.1)) in
            (held.0, inl held.1, second.0, second.1)
      ]
