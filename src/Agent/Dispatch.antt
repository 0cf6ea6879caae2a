-- ===== src/Agent/Dispatch.antt =====
-- Host.Dispatch of agent/operations/ops.go. What dispatchMethod does on the host, the
-- BeforeDispatch hook, the call of another agent over its socket and JSON are parameters. Dispatch
-- locks the fences twice, to accept a request and to remember its receipt; here it is one step, so
-- what is modelled is calls that follow one another.
use kelmor.Base.{String, not, ◌&&◌, ◌⊎◌, Option, none, some, nat_eq, if◌then◌else◌}
use kelmor.Base.Table.{Table}
use kelmor.Agent.Fences.{
  Request, FenceRecord, AgentError, Host, Verdict, refused, replayed, accepted, accept_fence,
  remember_fence,
}

-- What Dispatch returns: (result, nil) or (nil, err).
pub data Reply (A : Type 0) : Type 0 where
  done : A → Reply A
  failed : AgentError → Reply A

-- What stands behind Dispatch; `remote` is none while Sock is empty.
pub record Services (D A : Type 0) : Type 0 where
  pub read : D → Option (Table FenceRecord)
  pub write : Table FenceRecord → D → D
  pub fingerprint : Request → String
  pub marshal : A → AgentError ⊎ String
  pub unmarshal : String → A
  pub before : Request → Option AgentError
  pub remote : Option (Request → D → D × Reply A)
  pub perform : Request → D → D × Reply A

-- A request with no fence of its own takes the bound envelope.
unfoldable pub with_bound : {D : Type 0} → Request → Host D → Request
with_bound req h =
    if nat_eq req.env.fence 0 && not (nat_eq h.bound_env.fence 0)
    then record req { env = h.bound_env }
    else req

module _ {D A : Type 0} (s : Services D A) where
  abbrev pub on_disk : (Request → D → D × Reply A) → Request → Host D → Host D × Reply A
  on_disk f req h = let (d, r) = f req h.disk in (record h { disk = d }, r)

  abbrev pub settle : Request → Host D × Reply A → Host D × Reply A
  settle req (h, failed e) = (h, failed e)
  settle req (h, done a) =
      let (h', e) = remember_fence s.read s.write s.fingerprint req (s.marshal a) h in
      elim e [ none ↦ (h', done a) | some x ↦ (h', failed x) ]

  -- The method itself, here or on the other side of the socket.
  unfoldable pub carry_out : Request → Host D → Host D × Reply A
  carry_out req h = elim (s.before req) [
    | some e ↦ (h, failed e)
    | none ↦ elim s.remote [
      | some call ↦ on_disk call req h
      | none ↦ settle req (on_disk s.perform req h)
    ]
  ]

  abbrev pub obey : Request → Host D × Verdict → Host D × Reply A
  obey req (h, refused e) = (h, failed e)
  obey req (h, replayed raw) = (h, done (s.unmarshal raw))
  obey req (h, accepted) = carry_out req h

  -- `ctx_err` is the error of the context that applies.
  unfoldable pub dispatch : Option AgentError → Request → Host D → Host D × Reply A
  dispatch (some e) req h = (h, failed e)
  dispatch none req h =
      let req' = with_bound req h in obey req' (accept_fence s.read s.write s.fingerprint req' h)
