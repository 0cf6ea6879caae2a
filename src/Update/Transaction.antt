-- ===== src/Update/Transaction.antt =====
-- The transaction of an update: beginTransaction, installStagedArtifacts, the rollback, the cleanup
-- and recoverInterruptedTransaction of internal/update/apply.go, with Artifact of
-- internal/update/verify.go. A target is a regular file or missing.
use text.Mathlib.Text.{starts_with}
use kelmor.Base.{
  ℕ, String, ◌⧺◌, Bool, true, false, not, ◌&&◌, Option, none, some, List, [], ◌∷◌, ◌==◌, is_some,
  if◌then◌else◌,
}
use kelmor.Base.Table.{lookup, insert, erase}
use kelmor.Update.Root.{
  File, SnapshotEntry, SnapshotMetadata, Root, Entry, staged_file, saved_file, release_copy,
  metadata_file, Io, ◌>>=◌, ◌>>◌, pure, fail, or_else, act, look, remove_tree,
}

pub record Artifact : Type 0 where
  pub path : String
  pub target : String
  pub size : ℕ
  pub sha256 : String
  pub mode : ℕ
  pub kind : String

unfoldable pub artifact_kind_for_target : String → String
artifact_kind_for_target target =
    if starts_with target "share/migrations/" then "schema" else "runtime"

unfoldable pub kind_of_artifact : Artifact → String
kind_of_artifact a = if a.kind == "" then artifact_kind_for_target a.target else a.kind

-- The source of a copy has to be there.
abbrev pub found : Option File → Io File
found none = fail "no such file"
found (some f) = pure f

unfoldable pub in_staging : Entry → Bool
in_staging (staged_file t) = true
in_staging (saved_file t) = false
in_staging release_copy = false
in_staging metadata_file = false

unfoldable pub in_transaction : Entry → Bool
in_transaction e = not (in_staging e)

abbrev pub remove_staging : Io (Unit {0})
remove_staging = remove_tree in_staging (λ r. r)

abbrev pub remove_transaction : Io (Unit {0})
remove_transaction = remove_tree in_transaction (λ r. record r { transaction = false })

abbrev pub set_journal : SnapshotMetadata → Root → Root
set_journal md r = record r { journal = some md }

unfoldable pub write_transaction_metadata : SnapshotMetadata → Io (Unit {0})
write_transaction_metadata md = act (set_journal md)

abbrev pub save_file : String → File → Root → Root
save_file target f r = record r { saved = insert target f r.saved }

-- A target that is there is copied, unless it is a schema.
abbrev pub copy_target : Artifact → Option File → Io SnapshotEntry
copy_target a none = pure (record { target = a.target; exists = false; kind = kind_of_artifact a })
copy_target a (some f) =
    let entry : SnapshotEntry = record {
      target = a.target;
      exists = true;
      kind = kind_of_artifact a;
    } in
    if entry.kind == "schema" then pure entry else (act (save_file a.target f) >> pure entry)

unfoldable pub snapshot_target : Artifact → Io SnapshotEntry
snapshot_target a = look (λ r. lookup a.target r.live) >>= copy_target a

unfoldable pub snapshot_targets : List Artifact → Io (List SnapshotEntry)
snapshot_targets [] = pure []
snapshot_targets (a ∷ rest) =
    snapshot_target a >>= λ e. snapshot_targets rest >>= λ es. pure (e ∷ es)

abbrev pub save_release : Option File → Io (Unit {0})
save_release none = pure tt
save_release (some f) = act (λ r. record r { saved_release = some f })

abbrev pub prepared : List SnapshotEntry → Option File → SnapshotMetadata
prepared targets release = record {
  state = "prepared";
  targets = targets;
  current_release_exists = is_some release;
}

-- The release and the journal, when the targets are copied.
unfoldable pub finish_snapshot : List SnapshotEntry → Io SnapshotMetadata
finish_snapshot targets = do
  release ← look (λ r. r.release)
  save_release release
  write_transaction_metadata (prepared targets release)
  pure (prepared targets release)

abbrev pub make_transaction : Root → Root
make_transaction r = record r { transaction = true }

unfoldable pub begin_transaction : List Artifact → Io SnapshotMetadata
begin_transaction artifacts =
    (remove_transaction >> act make_transaction >> snapshot_targets artifacts) >>= finish_snapshot

-- A rename moves the file over its target.
unfoldable pub install_staged_artifacts : List Artifact → Io (Unit {0})
install_staged_artifacts [] = pure tt
install_staged_artifacts (a ∷ rest) = (look (λ r. lookup a.target r.staged) >>= found) >>= λ f.
    act (λ r. record r { staged = erase a.target r.staged; live = insert a.target f r.live })
    >> install_staged_artifacts rest

abbrev pub put_live : String → File → Root → Root
put_live target f r = record r { live = insert target f r.live }

abbrev pub drop_live : String → Root → Root
drop_live target r = record r { live = erase target r.live }

-- `valid_target` is the test of a target's path.
unfoldable pub restore_target : (String → Bool) → SnapshotEntry → Io (Unit {0})
restore_target valid_target e =
    if not (valid_target e.target)
    then fail "invalid rollback target"
    else if e.kind == "schema"
    then pure tt
    else if not e.exists
    then act (drop_live e.target)
    else (look (λ r. lookup e.target r.saved) >>= found) >>= λ f. act (put_live e.target f)

unfoldable pub restore_targets : (String → Bool) → List SnapshotEntry → Io (Unit {0})
restore_targets valid_target [] = pure tt
restore_targets valid_target (e ∷ es) =
    restore_target valid_target e >> restore_targets valid_target es

unfoldable pub restore_release : Bool → Io (Unit {0})
restore_release true =
    (look (λ r. r.saved_release) >>= found) >>= λ f. act (λ r. record r { release = some f })
restore_release false = act (λ r. record r { release = none })

unfoldable pub rollback_transaction_with_metadata :
    (String → Bool) → SnapshotMetadata → Io (Unit {0})
rollback_transaction_with_metadata valid_target md =
    write_transaction_metadata (record md { state = "rolling-back" })
    >> restore_targets valid_target md.targets
    >> restore_release md.current_release_exists

abbrev pub with_metadata :
    Option SnapshotMetadata → (SnapshotMetadata → Io (Unit {0})) → Io (Unit {0})
with_metadata none f = fail "no such file"
with_metadata (some md) f = f md

unfoldable pub rollback_transaction : (String → Bool) → Io (Unit {0})
rollback_transaction valid_target = look (λ r. r.journal) >>= λ md.
    with_metadata md (rollback_transaction_with_metadata valid_target)

unfoldable pub cleanup_transaction : Io (Unit {0})
cleanup_transaction = remove_staging >> remove_transaction

-- One command of the runner, and what its error is called.
abbrev pub command : String → Io (Unit {0})
command what = or_else (look (λ r. tt)) (λ e. fail (what ⧺ (": " ⧺ e)))

unfoldable pub run_activation_and_health_checks : Io (Unit {0})
run_activation_and_health_checks =
    command "service activation failed"
    >> command "service activation failed"
    >> command "health check failed"
    >> command "health check failed"
    >> command "health check failed"
    >> command "health check failed"
    >> command "health check failed"

abbrev pub when_runner : Bool → Io (Unit {0}) → Io (Unit {0})
when_runner true m = m
when_runner false m = pure tt

-- What is done with a transaction that was found, by its journal.
unfoldable pub recover_journal :
    (String → Bool) → Bool → Bool → Option SnapshotMetadata → Io (Unit {0})
recover_journal valid_target runner required none = cleanup_transaction
recover_journal valid_target runner required (some md) =
    if md.state == "committed"
    then cleanup_transaction
    else if not runner && required
    then fail "recovery runner is required while an interrupted transaction is pending"
    else (rollback_transaction_with_metadata valid_target md
        >> when_runner runner run_activation_and_health_checks
        >> cleanup_transaction)

-- `runner` says whether there is one.
unfoldable pub recover_interrupted_transaction : (String → Bool) → Bool → Bool → Io (Unit {0})
recover_interrupted_transaction valid_target runner required =
    look (λ r. r.transaction) >>= λ found.
    if not found
    then pure tt
    else look (λ r. r.journal) >>= recover_journal valid_target runner required
