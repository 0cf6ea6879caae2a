-- ===== src/Update/Install.antt =====
-- The installation of the staged artifacts, from beginTransaction on: installWithOperationLock and
-- rollbackFailedInstall of internal/update/apply.go.
use kelmor.Base.{String, Bool, true, false, ◌⧺◌, ◌⊎◌, inl, inr, some, List}
use kelmor.Update.Root.{File, SnapshotMetadata, Root, Io, ◌>>=◌, ◌>>◌, pure, or_else, act, look}
use kelmor.Update.Transaction.{
  Artifact, begin_transaction, install_staged_artifacts, write_transaction_metadata,
  cleanup_transaction, rollback_transaction, run_activation_and_health_checks,
}

-- What the caller gets: the status' state, with its error.
pub data InstallResult : Type 0 where
  installed : InstallResult
  install_error : String → InstallResult
  rolled_back : String → InstallResult
  critical : String → String → InstallResult

-- An error as a value.
abbrev pub try : {A : Type 0} → Io A → Io (A ⊎ String)
try m = or_else (m >>= λ a. pure (inl a)) (λ e. pure (inr e))

-- The release file, whose mode is 0644.
abbrev pub release_file : String → File
release_file release = record { content = release ⧺ "\n"; mode = 420 }

abbrev pub put_release : String → Root → Root
put_release release r = record r { release = some (release_file release) }

-- The status file stands outside the root.
abbrev pub write_status : Bool → Io (Unit {0})
write_status true = look (λ r. tt)
write_status false = pure tt

abbrev pub ended : InstallResult → InstallResult → Unit {0} ⊎ String → Io InstallResult
ended good bad (inl u) = pure good
ended good bad (inr e) = pure bad

abbrev pub in_state : String → SnapshotMetadata → SnapshotMetadata
in_state state md = record md { state = state }

abbrev pub rollback_ended : Bool → String → Unit {0} ⊎ String → Io InstallResult
rollback_ended has_status e (inl u) =
    try (write_status has_status) >>= ended (rolled_back e) (rolled_back e)
rollback_ended has_status e (inr e') =
    try (write_status has_status) >>= ended (critical e e') (critical e e')

unfoldable pub rollback_failed_install : (String → Bool) → Bool → String → Io InstallResult
rollback_failed_install valid_target has_status e =
    try
      (rollback_transaction valid_target >> run_activation_and_health_checks >> cleanup_transaction)
    >>= rollback_ended has_status e

-- From the journal's "applying" to its "activated".
unfoldable pub activate : String → List Artifact → SnapshotMetadata → Io (Unit {0})
activate release artifacts md =
    write_transaction_metadata (in_state "applying" md)
    >> install_staged_artifacts artifacts
    >> run_activation_and_health_checks
    >> act (put_release release)
    >> write_transaction_metadata (in_state "activated" md)

unfoldable pub commit : Bool → String → List Artifact → SnapshotMetadata → Io (Unit {0})
commit has_status release artifacts md =
    activate release artifacts md
    >> write_status has_status
    >> write_transaction_metadata (in_state "committed" md)

abbrev pub committed_or_not : (String → Bool) → Bool → Unit {0} ⊎ String → Io InstallResult
committed_or_not valid_target has_status (inl u) =
    try cleanup_transaction >>= ended installed installed
committed_or_not valid_target has_status (inr e) = rollback_failed_install valid_target has_status e

abbrev pub begun_or_not :
    (String → Bool) → Bool → String → List Artifact → SnapshotMetadata ⊎ String → Io InstallResult
begun_or_not valid_target has_status release artifacts (inl md) =
    try (commit has_status release artifacts md) >>= committed_or_not valid_target has_status
begun_or_not valid_target has_status release artifacts (inr e) =
    try cleanup_transaction >>= ended (install_error e) (install_error e)

-- What follows on the download of the artifacts.
unfoldable pub install_downloaded :
    (String → Bool) → Bool → String → List Artifact → Io InstallResult
install_downloaded valid_target has_status release artifacts =
    try (begin_transaction artifacts) >>= begun_or_not valid_target has_status release artifacts
