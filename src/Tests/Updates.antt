-- ===== src/Tests/Updates.antt =====
-- The theorems on updates, applied to a small install root.
use kelmor.Base.{
  ℕ, All, zero, suc, ◌≤◌, String, true, false, ◌≡◌, refl, none, some, List, [], ◌∷◌, arith,
}
use kelmor.Base.Table.{lookup, insert, erase, retain}
use kelmor.Update.Root.{
  act, remove_tree, prune, File, SnapshotEntry, Root, Fate, works, fails, fails_late, dies, done,
}
use kelmor.Update.Transaction.{
  in_staging, in_transaction, snapshot_targets, snapshot_target, finish_snapshot,
  write_transaction_metadata, run_activation_and_health_checks, install_staged_artifacts, Artifact,
  kind_of_artifact, begin_transaction, cleanup_transaction, recover_interrupted_transaction,
}
use kelmor.Update.Install.{installed, install_downloaded, commit, activate}
use kelmor.Update.Rules.{Post}
use kelmor.Update.Pending.{Snapshot, Pending, Untouched}
use kelmor.Update.Pending.{is_named, is_schema}
use kelmor.Update.Copies.{is_target, schema_target}
use kelmor.Update.Begin.{Prepared, Stopped, begin_transaction-Prepared}
use kelmor.Update.Safe.{Safe, underway}
use kelmor.Update.Leaves.{Old, Leaves}
use kelmor.Update.Outcomes.{install_downloaded-Leaves}
use kelmor.Update.Aftermath.{Over, recover-Safe, recover-restores}
use kelmor.Update.Wedged.{Wedged}
use kelmor.Paths.Text.{has_prefix}
use kelmor.Update.Artifacts.{
  Formats, validate_artifacts, validate_loop, artifact_error, valid_target, valid_relative_path,
  max_artifact_size, max_download_size, sizes, Different, validate_artifacts-Passed,
}
use kelmor.Update.Torn.{recover-torn, torn, without}

abbrev file : String → File
file text = record { content = text; mode = 493 }

abbrev artifact : String → Artifact
artifact target = record {
  path = target;
  target = target;
  size = 3;
  sha256 = "digest";
  mode = 493;
  kind = "runtime";
}

abbrev artifacts : List Artifact
artifacts = artifact "bin/api" ∷ artifact "bin/new" ∷ []

abbrev old_release : File
old_release = record { content = "1.0.0\n"; mode = 420 }

-- Two artifacts are downloaded; one of their targets is there.
abbrev before : Root
before = record {
  live = ("bin/api", file "old") ∷ ("bin/other", file "kept") ∷ [];
  release = some old_release;
  staged = ("bin/api", file "new") ∷ ("bin/new", file "new") ∷ [];
  transaction = false;
  saved = [];
  saved_release = none;
  journal = none;
}

before-Untouched : Untouched before before
before-Untouched = record { no_journal = refl; live = refl; release = refl; staged = refl }

-- The second rename of the installation fails, after its effect.
abbrev late : List Fate
late =
    works
    ∷ works
    ∷ works
    ∷ works
    ∷ works
    ∷ works
    ∷ works
    ∷ works
    ∷ works
    ∷ works
    ∷ works
    ∷ works
    ∷ fails_late "sync"
    ∷ []

begin_transaction-Prepared_example :
    Post
      (Prepared before artifacts)
      (Stopped before artifacts)
      (begin_transaction artifacts before (works ∷ works ∷ works ∷ fails "disk full" ∷ []))
begin_transaction-Prepared_example =
    begin_transaction-Prepared before artifacts before
      (works ∷ works ∷ works ∷ fails "disk full" ∷ []) before-Untouched

install_downloaded-Leaves_example :
    Post
      (Leaves before artifacts "2.0.0")
      (Safe before artifacts "2.0.0")
      (install_downloaded (λ t. true) true "2.0.0" artifacts before late)
install_downloaded-Leaves_example =
    install_downloaded-Leaves before artifacts "2.0.0" (λ t. true) true before late before-Untouched

abbrev entries : List SnapshotEntry
entries =
    record { target = "bin/api"; exists = true; kind = "runtime" }
    ∷ record { target = "bin/new"; exists = false; kind = "runtime" }
    ∷ []

-- The process died when both artifacts were installed.
abbrev half_way : Root
half_way = record {
  live = ("bin/api", file "new") ∷ ("bin/other", file "kept") ∷ ("bin/new", file "new") ∷ [];
  release = some old_release;
  staged = [];
  transaction = true;
  saved = ("bin/api", file "old") ∷ [];
  saved_release = some old_release;
  journal = some (record { state = "applying"; targets = entries; current_release_exists = true });
}

snapshot : Snapshot before half_way.saved half_way.saved_release entries true
unfolding lookup
snapshot = record {
  covered = ((file "old", refl, refl), (refl, tt));
  release = (old_release, refl, refl);
}

half_way-Pending : Pending before half_way.saved half_way.saved_release entries true half_way
unfolding lookup
half_way-Pending = record {
  state = "applying";
  journal = refl;
  uncommitted = refl;
  transaction = refl;
  copies = refl;
  release_copy = refl;
  rest = λ k e. ground (arith);
}

entries_names :
    (k : String)
    → (is_named entries k ≡ is_target artifacts k)
      × (is_schema entries k ≡ schema_target artifacts k)
unfolding kind_of_artifact
entries_names k = (refl, refl)

recover-Safe_example :
    Post
      (λ u. Over before artifacts "2.0.0")
      (Safe before artifacts "2.0.0")
      (recover_interrupted_transaction (λ t. true) true true half_way (works ∷ works ∷ dies ∷ []))
recover-Safe_example =
    recover-Safe before artifacts "2.0.0" (λ t. true) true true half_way (works ∷ works ∷ dies ∷ [])
      (underway half_way.saved half_way.saved_release entries true snapshot entries_names
        half_way-Pending)

recover-restores_example :
    (r' : Root) × (recover_interrupted_transaction (λ t. true) true true half_way []
      ≡ (r', [], done tt))
    × Old before artifacts r'
recover-restores_example =
    recover-restores before artifacts half_way.saved half_way.saved_release entries true (λ t. true)
      true true half_way (refl, (refl, tt)) snapshot entries_names half_way-Pending refl

-- The same root after its rollback, and the copy of bin/api gone.
abbrev rolled : Root
rolled = record half_way {
  journal =
      some (record { state = "rolling-back"; targets = entries; current_release_exists = true });
}

recover-torn_example :
    Post
      (λ u s. ⊥)
      (Wedged (without "bin/api" half_way.saved) entries true)
      (recover_interrupted_transaction
        (λ t. true)
        true
        true
        ((cleanup_transaction rolled (torn "bin/api")).0)
        [])
recover-torn_example =
    recover-torn "bin/api" half_way.saved entries true (λ t. true) true true rolled [] refl
      (record {
        state = "rolling-back";
        journal = refl;
        uncommitted = refl;
        transaction = refl;
        copies = refl;
      })

-- The installation itself, with nothing in its way, and with a failed rename.
installs : ((install_downloaded (λ t. true) true "2.0.0" artifacts before []).2) ≡ done installed
unfolding install_downloaded begin_transaction cleanup_transaction commit activate
    install_staged_artifacts snapshot_targets snapshot_target finish_snapshot
    write_transaction_metadata run_activation_and_health_checks act remove_tree lookup erase retain
    insert kind_of_artifact prune in_transaction in_staging
installs = refl

abbrev replicate : ℕ → ℕ → List ℕ
replicate zero b = []
replicate (suc n) b = b ∷ replicate n b

-- For paths with no escapes.
abbrev formats : Formats
formats = record {
  is_abs = λ s. has_prefix s "/";
  clean = λ s. s;
  path_unescape = λ s. some s;
  decode_hex = λ s. some (replicate 32 0);
}

two_pass : validate_artifacts formats artifacts ≡ none
unfolding validate_artifacts validate_loop artifact_error valid_target valid_relative_path
two_pass = refl

validate_artifacts-Passed_example :
    All
      (λ (a : Artifact). (valid_target formats a.target ≡ true) × (a.size ≤ max_artifact_size))
      artifacts
    × (sizes formats artifacts ≤ max_download_size)
    × Different formats artifacts
validate_artifacts-Passed_example =
    validate_artifacts-Passed formats artifacts (omega arith) two_pass
