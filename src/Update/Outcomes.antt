-- ===== src/Update/Outcomes.antt =====
-- The whole installation: installWithOperationLock, from beginTransaction on, of internal/update/apply.go.
use kelmor.Base.{
  String, Bool, true, false, ◌≡◌, refl, ap, ◌⊎◌, inl, inr, Option, none, List, if◌then◌else◌,
}
use kelmor.Base.Table.{Table, lookup}
use kelmor.Update.Root.{File, SnapshotMetadata, Root, Fate, Entry, prune, metadata_file, ◌>>=◌}
use kelmor.Update.Transaction.{Artifact, cleanup_transaction, begin_transaction}
use kelmor.Update.Install.{install_error, try, ended, begun_or_not, install_downloaded}
use kelmor.Update.Cleanup.{cleanup-Holds}
use kelmor.Update.Rules.{Post, Post-map, Either, Holds, Holds-bind}
use kelmor.Update.Pending.{Untouched}
use kelmor.Update.Rollback.{Closed, Pending-Settled, prune-Settled, marker-Settled}
use kelmor.Update.Begin.{Prepared, Stopped, begin_transaction-Prepared}
use kelmor.Update.Safe.{Unharmed, Safe, unharmed, underway, settled, Holds-try}
use kelmor.Update.Installs.{commit-Leaves}
use kelmor.Update.Leaves.{Leaves, try_then}

module _ (o : Root) (as' : List Artifact) (name : String) where
  -- Where beginTransaction fails, the directories are removed, and the files stay.
  abbrev Same : Root → Type 0
  Same r = (r.live ≡ o.live) × (r.release ≡ o.release)

  none_either : (b : Bool) → ◌≡◌ {A = Option SnapshotMetadata} (if b then none else none) none
  none_either true = refl
  none_either false = refl

  pub prune-Unharmed : (gone : Entry → Bool) (r : Root) → Unharmed o r → Unharmed o (prune gone r)
  unfolding prune
  prune-Unharmed gone r q = (rw q.0 (none_either (gone metadata_file)), q.1, q.2)

  -- The snapshot was whole.
  module _ (saved : Table File) (saved_release : Option File) (md : SnapshotMetadata) where
    abbrev LeftOver : Root → Type 0
    LeftOver r = Closed o saved saved_release md.targets md.current_release_exists r × Same r

    prune-LeftOver : (gone : Entry → Bool) (r : Root) → LeftOver r → LeftOver (prune gone r)
    unfolding prune
    prune-LeftOver gone r p =
        (prune-Settled o saved saved_release md.targets md.current_release_exists gone r p.0, p.1)

    mark-LeftOver : (r : Root) → LeftOver r → LeftOver (record r { transaction = false })
    mark-LeftOver r p =
        (marker-Settled o saved saved_release md.targets md.current_release_exists r p.0, p.1)

  Prepared-LeftOver :
      (md : SnapshotMetadata) (r : Root)
      → Prepared o as' md r
      → LeftOver r.saved r.saved_release md r
  Prepared-LeftOver md r p = (
    Pending-Settled o r.saved r.saved_release md.targets md.current_release_exists r p.pending
        (λ k h. ap (lookup k) p.live) p.release,
    (p.live, p.release),
  )

  error_ended :
      (e : String)
      → Holds
          (Stopped o as')
          (try cleanup_transaction >>= ended (install_error e) (install_error e))
          (Leaves o as' name)
          (Safe o as' name)
  error_ended e r fs (inl p) =
      try_then (Unharmed o) (Safe o as' name) (Leaves o as' name) cleanup_transaction
        (install_error e) (cleanup-Holds (Unharmed o) prune-Unharmed (λ s q. q)) (λ s q. (q.1, q.2))
        (λ s q. unharmed q) r fs (p.no_journal, p.live, p.release)
  error_ended e r fs (inr (md, p)) =
      try_then (LeftOver r.saved r.saved_release md) (Safe o as' name) (Leaves o as' name)
        cleanup_transaction (install_error e)
        (cleanup-Holds (LeftOver r.saved r.saved_release md)
          (prune-LeftOver r.saved r.saved_release md) (mark-LeftOver r.saved r.saved_release md))
        (λ s q. q.1)
        (λ s q.
          settled r.saved r.saved_release md.targets md.current_release_exists p.snapshot p.names
            q.0)
        r fs (Prepared-LeftOver md r p)

  Stopped-Safe : (r : Root) → Stopped o as' r → Safe o as' name r
  Stopped-Safe r (inl p) = unharmed (p.no_journal, p.live, p.release)
  Stopped-Safe r (inr (md, p)) =
      underway r.saved r.saved_release md.targets md.current_release_exists p.snapshot p.names
        p.pending

  begun-Leaves :
      (valid_target : String → Bool) (b : Bool) (x : SnapshotMetadata ⊎ String)
      → Holds
          (Either (Prepared o as') (Stopped o as') x)
          (begun_or_not valid_target b name as' x)
          (Leaves o as' name)
          (Safe o as' name)
  begun-Leaves valid_target b (inl md) r fs p =
      commit-Leaves o r.saved r.saved_release md.targets md.current_release_exists as' name p.names
        p.snapshot valid_target b md.state r fs (p.pending, p.staged)
  begun-Leaves valid_target b (inr e) r fs p = error_ended e r fs p

  -- From a root with no journal, whatever happens to the file operations and the commands of an
  -- installation: "installed" comes with every staged file on its target, the new release, and no
  -- other live file changed; an error of beginTransaction, with no live file and no
  -- release changed; "rolled-back", with every old file back but the schemas, the old release, and
  -- no transaction. Where the rollback fails too, or the process dies, there is no journal and
  -- nothing live has changed; or the journal is open and whole, with the copies of the old files but
  -- the schemas, and no file but the targets has changed; or those old files and the old release are
  -- back; or the new release is complete, and a journal that is left says "committed".
  pub install_downloaded-Leaves :
      (valid_target : String → Bool) (b : Bool) (r : Root) (fs : List Fate)
      → Untouched o r
      → Post (Leaves o as' name) (Safe o as' name) (install_downloaded valid_target b name as' r fs)
  unfolding install_downloaded
  install_downloaded-Leaves valid_target b =
      Holds-bind (Untouched o) (Safe o as' name) (Either (Prepared o as') (Stopped o as'))
        (Leaves o as' name) (try (begin_transaction as')) (begun_or_not valid_target b name as')
        (λ r fs p.
          Post-map (Either (Prepared o as') (Stopped o as'))
            (Either (Prepared o as') (Stopped o as')) (Stopped o as') (Safe o as' name)
            (try (begin_transaction as') r fs) (λ x s q. q) Stopped-Safe
            (Holds-try (Untouched o) (Stopped o as') (Prepared o as') (begin_transaction as')
              (begin_transaction-Prepared o as') r fs p))
        (begun-Leaves valid_target b)
