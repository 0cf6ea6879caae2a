-- ===== src/Agent/Fences.antt =====
-- The fence records of the agent: agent/operations/fence.go, with Envelope and Request of
-- agent/operations/ops.go. The file of fences is a parameter: `read` is what os.ReadFile and
-- json.Unmarshal make of the disk, `write` what os.WriteFile leaves there. So are the SHA-256
-- fingerprint of a request and the JSON of a result.
use kelmor.Base.{
  ℕ, String, Bool, not, ◌&&◌, Option, none, some, [], ◌==◌, ◌⊎◌, inl, inr, nat_eq, if◌then◌else◌,
  slt,
}
use kelmor.Base.Table.{Table, lookup, insert}

pub record Envelope : Type 0 where
  pub operation_id : String
  pub request_id : String
  pub actor_id : String
  pub resource_id : String
  pub expected_revision : ℕ
  pub fence : ℕ

pub record Request : Type 0 where
  pub method : String
  pub env : Envelope
  pub params : String

pub record FenceRecord : Type 0 where
  pub fence : ℕ
  pub operation_id : String
  pub method : String
  pub fingerprint : String
  pub receipt : String

pub data AgentError : Type 0 where
  stale_resource_fence : AgentError
  failure : String → AgentError

-- The part of Host that Dispatch reads and writes; `fences` is none while the map is nil, and
-- `disk` is the host with its files.
pub record Host (D : Type 0) : Type 0 where
  pub bound_env : Envelope
  pub fences : Option (Table FenceRecord)
  pub disk : D

-- What acceptFence returns: an error, a replayed receipt, or neither.
pub data Verdict : Type 0 where
  refused : AgentError → Verdict
  replayed : String → Verdict
  accepted : Verdict

abbrev pub no_record : FenceRecord
no_record = record { fence = 0; operation_id = ""; method = ""; fingerprint = ""; receipt = "" }

unfoldable pub fence_key : Envelope → String
fence_key env = if not (env.resource_id == "") then env.resource_id else env.operation_id

module _ {D : Type 0} (read : D → Option (Table FenceRecord)) (write : Table FenceRecord → D → D)
    (fingerprint : Request → String) where
  -- The fences that ensureFences leaves.
  unfoldable pub loaded : Host D → Table FenceRecord
  loaded h = elim h.fences [ some t ↦ t | none ↦ elim (read h.disk) [ none ↦ [] | some t ↦ t ] ]

  unfoldable pub ensure_fences : Host D → Host D
  ensure_fences h = record h { fences = some (loaded h) }

  -- A key with no record reads as the zero record.
  unfoldable pub load_fence : String → Host D → FenceRecord
  load_fence key h = elim (lookup key (loaded h)) [ none ↦ no_record | some r ↦ r ]

  unfoldable pub store_fence : String → FenceRecord → Host D → Host D
  store_fence key r h =
      let t = insert key r (loaded h) in record h { fences = some t; disk = write t h.disk }

  -- The same request under the same fence, with a receipt to answer it by.
  unfoldable pub is_replay : FenceRecord → Request → Bool
  is_replay r req =
      nat_eq r.fence req.env.fence
      && (r.operation_id == req.env.operation_id
          && (r.method == req.method
              && (r.fingerprint == fingerprint req
                  && (not (r.fingerprint == "") && not (r.receipt == "")))))

  unfoldable pub judge : FenceRecord → Request → Verdict
  judge r req =
      if slt req.env.fence r.fence
      then refused stale_resource_fence
      else if is_replay r req
      then replayed r.receipt
      else if nat_eq r.fence req.env.fence
          && (not (r.operation_id == "") && not (r.operation_id == req.env.operation_id))
      then refused stale_resource_fence
      else accepted

  unfoldable pub accept_fence : Request → Host D → Host D × Verdict
  accept_fence req h =
      if nat_eq req.env.fence 0
      then (h, accepted)
      else if fence_key req.env == ""
      then (h, refused stale_resource_fence)
      else (ensure_fences h, judge (load_fence (fence_key req.env) h) req)

  abbrev pub record_of : Request → String → FenceRecord
  record_of req receipt = record {
    fence = req.env.fence;
    operation_id = req.env.operation_id;
    method = req.method;
    fingerprint = fingerprint req;
    receipt = receipt;
  }

  -- `marshaled` is what json.Marshal makes of the result.
  unfoldable pub remember_fence :
      Request → AgentError ⊎ String → Host D → Host D × Option AgentError
  remember_fence req marshaled h =
      if nat_eq req.env.fence 0
      then (h, none)
      else if fence_key req.env == ""
      then (h, none)
      else elim marshaled [
        | inl e ↦ (h, some e)
        | inr raw ↦ (store_fence (fence_key req.env) (record_of req raw) h, none)
      ]
