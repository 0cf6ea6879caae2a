-- ===== src/Update/Installs.antt =====
-- An installation from its snapshot on, with the rollback where it fails: installWithOperationLock
-- and rollbackFailedInstall of internal/update/apply.go.
use kelmor.Base.{String, Bool, ◌≡◌, refl, sym, ap, ◌∙◌, subst, ◌⊎◌, inl, inr, Option, List}
use kelmor.Base.Table.{Table}
use kelmor.Update.Root.{File, SnapshotEntry, SnapshotMetadata, Root, Io, act, look, ◌>>=◌, ◌>>◌}
use kelmor.Update.Transaction.{
  Artifact, cleanup_transaction, write_transaction_metadata, set_journal, rollback_transaction,
  rollback_transaction_with_metadata, with_metadata, run_activation_and_health_checks,
}
use kelmor.Update.Install.{
  InstallResult, installed, rolled_back, critical, try, write_status, ended, activate, commit,
  rollback_failed_install, rollback_ended, committed_or_not,
}
use kelmor.Update.Cleanup.{checks-Holds}
use kelmor.Update.Rules.{Post, Post-map, Either, Holds, Holds-bind, Holds-act, Holds-look}
use kelmor.Update.Pending.{is_named, Snapshot}
use kelmor.Update.Copies.{Names, is_target}
use kelmor.Update.Trail.{Trail, rollback-from, Back}
use kelmor.Update.Rollback.{
  Open, Closed, Recovered, Pending-Trail, Pending-Settled, cleanup-Settled,
}
use kelmor.Update.Fresh.{activate-Active, Active, Complete}
use kelmor.Update.Safe.{All-Noted, New, Safe, underway, settled, complete, Holds-try}
use kelmor.Update.Leaves.{Old, Leaves, status-Holds, try_then, cleanup-New}

module _ (o : Root) (saved : Table File) (saved_release : Option File) (ts : List SnapshotEntry)
    (exists : Bool) (as' : List Artifact) (name : String) (names : Names o as' ts)
    (snapshot : Snapshot o saved saved_release ts exists) where
  abbrev Live : Root → Type 0
  Live = Open o saved saved_release ts exists

  abbrev targets_named : (k : String) → is_named ts k ≡ is_target as' k
  targets_named k = (names k).0

  abbrev Whole : Root → Type 0
  Whole = Complete o saved saved_release ts exists as' name targets_named

  abbrev EitherWay : Root → Type 0
  EitherWay r = Live r ⊎ Whole r

  abbrev at_state : String → SnapshotMetadata
  at_state state = record { state = state; targets = ts; current_release_exists = exists }

  Live-Safe : (r : Root) → Live r → Safe o as' name r
  Live-Safe r p = underway saved saved_release ts exists snapshot names p

  Closed-Safe : (r : Root) → Closed o saved saved_release ts exists r → Safe o as' name r
  Closed-Safe r p = settled saved saved_release ts exists snapshot names p

  Whole-New : (r : Root) → Whole r → New o as' name r
  Whole-New r p = (p.0, inr (at_state "committed", ap (λ (s : Root). s.journal) p.1.2, refl))

  EitherWay-Safe : (r : Root) → EitherWay r → Safe o as' name r
  EitherWay-Safe r (inl p) = Live-Safe r p
  EitherWay-Safe r (inr p) = complete (Whole-New r p)

  pub commit-Whole :
      (state : String) (b : Bool)
      → Holds
          (λ r. Live r × (r.staged ≡ o.staged))
          (commit b name as' (at_state state))
          (λ u. Whole)
          EitherWay
  unfolding commit write_transaction_metadata
  commit-Whole state b =
      Holds-bind (λ r. Live r × (r.staged ≡ o.staged)) EitherWay (λ u. New_files) (λ u. Whole)
        (activate name as' (at_state state) >> write_status b)
        (λ u. act (set_journal (at_state "committed")))
        (λ r fs p.
          Post-map (λ u. New_files) (λ u. New_files) Live EitherWay
            ((activate name as' (at_state state) >> write_status b) r fs) (λ u s q. q)
            (λ s q. inl q) (both r fs p))
        (λ u.
          Holds-act New_files EitherWay (λ u. Whole) (set_journal (at_state "committed"))
            (λ r p. inl p.0) (λ r p. inr (commit_whole r p)) (λ r p. commit_whole r p))
    where
      New_files : Root → Type 0
      New_files = Active o saved saved_release ts exists as' name targets_named

      both :
          Holds
            (λ r. Live r × (r.staged ≡ o.staged))
            (activate name as' (at_state state) >> write_status b)
            (λ u. New_files)
            Live
      both =
          Holds-bind (λ r. Live r × (r.staged ≡ o.staged)) Live (λ u. New_files) (λ u. New_files)
            (activate name as' (at_state state)) (λ u. write_status b)
            (activate-Active o saved saved_release ts exists as' name targets_named state)
            (λ u r fs p.
              Post-map (λ u. New_files) (λ u. New_files) New_files Live (write_status b r fs)
                (λ u s q. q) (λ s q. q.0) (status-Holds New_files b r fs p))

      commit_whole : (r : Root) → New_files r → Whole (set_journal (at_state "committed") r)
      commit_whole r p = (
        record { targets = p.1.targets; others = p.1.others; release = p.1.release },
        (r, p.0, refl),
      )

  abbrev Shut : Root → Type 0
  Shut = Closed o saved saved_release ts exists

  module _ (valid_target : String → Bool) where
    abbrev trail : Trail o saved saved_release ts exists Live
    trail = Pending-Trail o saved saved_release ts exists

    -- The rollback from a journal in some state.
    roll :
        (P : Root → Type 0) (state : String)
        → ((r : Root) → P r → Live (set_journal (at_state "rolling-back") r))
        → ((r : Root) → P r → Safe o as' name r)
        → Holds P
            (rollback_transaction_with_metadata valid_target (at_state state))
            (λ u. Shut)
            (Safe o as' name)
    roll P state enter weak r fs p =
        Post-map (λ u. Back valid_target o saved saved_release ts exists Live trail) (λ u. Shut)
          (Safe o as' name) (Safe o as' name)
          (rollback_transaction_with_metadata valid_target (at_state state) r fs)
          (λ u s q. Pending-Settled o saved saved_release ts exists s q.0 q.1 q.2) (λ s q. q)
          (rollback-from valid_target o saved saved_release ts exists Live trail P (Safe o as' name)
            state enter weak Live-Safe (All-Noted o saved ts snapshot.covered) snapshot.release r fs
            p)

    Whole-rolling : (r : Root) → Whole r → Live (set_journal (at_state "rolling-back") r)
    Whole-rolling r p =
        subst (λ (s : Root). Live (set_journal (at_state "rolling-back") s)) (sym p.1.2)
          (trail.rolling p.1.0 p.1.1)

    -- By the journal that is read.
    roll_read :
        (j : Option SnapshotMetadata)
        → Holds
            (λ r. EitherWay r × (r.journal ≡ j))
            (with_metadata j (rollback_transaction_with_metadata valid_target))
            (λ u. Shut)
            (Safe o as' name)
    roll_read j r fs (inl p, e) =
        subst
          (λ (x : Option SnapshotMetadata).
            Post (λ u. Shut) (Safe o as' name)
              (with_metadata x (rollback_transaction_with_metadata valid_target) r fs))
          (sym p.journal ∙ e) (roll Live p.state trail.rolling Live-Safe r fs p)
    roll_read j r fs (inr p, e) =
        subst
          (λ (x : Option SnapshotMetadata).
            Post (λ u. Shut) (Safe o as' name)
              (with_metadata x (rollback_transaction_with_metadata valid_target) r fs))
          (sym (ap (λ (s : Root). s.journal) p.1.2) ∙ e)
          (roll Whole "committed" Whole-rolling (λ s q. complete (Whole-New s q)) r fs p)

    rollback_transaction-Shut :
        Holds EitherWay (rollback_transaction valid_target) (λ u. Shut) (Safe o as' name)
    unfolding rollback_transaction
    rollback_transaction-Shut =
        Holds-bind EitherWay (Safe o as' name) (λ j r. EitherWay r × (r.journal ≡ j)) (λ u. Shut)
          (look (λ r. r.journal))
          (λ j. with_metadata j (rollback_transaction_with_metadata valid_target))
          (Holds-look EitherWay (Safe o as' name) (λ j r. EitherWay r × (r.journal ≡ j))
            (λ r. r.journal) EitherWay-Safe (λ r p. (p, refl)))
          roll_read

    closed_step :
        (Q : Unit {0} → Root → Type 0) (m : Io (Unit {0}))
        → Holds Shut m Q Shut
        → Holds Shut m Q (Safe o as' name)
    closed_step Q m h r fs p =
        Post-map Q Q Shut (Safe o as' name) (m r fs) (λ u s q. q) Closed-Safe (h r fs p)

    undo-Recovered :
        Holds EitherWay
          (rollback_transaction valid_target
            >> run_activation_and_health_checks
            >> cleanup_transaction)
          (λ u. Recovered o saved saved_release ts exists)
          (Safe o as' name)
    undo-Recovered =
        Holds-bind EitherWay (Safe o as' name) (λ u. Shut)
          (λ u. Recovered o saved saved_release ts exists)
          (rollback_transaction valid_target >> run_activation_and_health_checks)
          (λ u. cleanup_transaction)
          (Holds-bind EitherWay (Safe o as' name) (λ u. Shut) (λ u. Shut)
            (rollback_transaction valid_target) (λ u. run_activation_and_health_checks)
            rollback_transaction-Shut
            (λ u. closed_step (λ v. Shut) run_activation_and_health_checks (checks-Holds Shut)))
          (λ u.
            closed_step (λ v. Recovered o saved saved_release ts exists) cleanup_transaction
              (cleanup-Settled o saved saved_release ts exists))

    Recovered-Old : (r : Root) → Recovered o saved saved_release ts exists r → Old o as' r
    Recovered-Old r p = record {
      targets = λ k h. p.0.rest k ((names k).1 ∙ h);
      release = p.0.release;
      over = p.1;
    }

    status_then :
        (J : Root → Type 0) (b : Bool) (res : InstallResult)
        → ((r : Root) → J r → Leaves o as' name res r)
        → ((r : Root) → J r → Safe o as' name r)
        → Holds J (try (write_status b) >>= ended res res) (Leaves o as' name) (Safe o as' name)
    status_then J b res =
        try_then J (Safe o as' name) (Leaves o as' name) (write_status b) res (status-Holds J b)

    rollback_ended-Leaves :
        (b : Bool) (e : String) (x : Unit {0} ⊎ String)
        → Holds
            (Either (λ u. Recovered o saved saved_release ts exists) (Safe o as' name) x)
            (rollback_ended b e x)
            (Leaves o as' name)
            (Safe o as' name)
    rollback_ended-Leaves b e (inl u) =
        status_then (Recovered o saved saved_release ts exists) b (rolled_back e) Recovered-Old
          (λ r p. Closed-Safe r p.0)
    rollback_ended-Leaves b e (inr e') =
        status_then (Safe o as' name) b (critical e e') (λ r p. p) (λ r p. p)

    pub rollback_failed_install-Leaves :
        (b : Bool) (e : String)
        → Holds EitherWay
            (rollback_failed_install valid_target b e)
            (Leaves o as' name)
            (Safe o as' name)
    unfolding rollback_failed_install
    rollback_failed_install-Leaves b e =
        Holds-bind EitherWay (Safe o as' name)
          (Either (λ u. Recovered o saved saved_release ts exists) (Safe o as' name))
          (Leaves o as' name)
          (try (
            rollback_transaction valid_target
            >> run_activation_and_health_checks
            >> cleanup_transaction))
          (rollback_ended b e)
          (Holds-try EitherWay (Safe o as' name) (λ u. Recovered o saved saved_release ts exists)
            (rollback_transaction valid_target
              >> run_activation_and_health_checks
              >> cleanup_transaction)
            undo-Recovered)
          (rollback_ended-Leaves b e)

    committed_or_not-Leaves :
        (b : Bool) (x : Unit {0} ⊎ String)
        → Holds
            (Either (λ u. Whole) EitherWay x)
            (committed_or_not valid_target b x)
            (Leaves o as' name)
            (Safe o as' name)
    committed_or_not-Leaves b (inl u) = λ r fs p.
        try_then (New o as' name) (Safe o as' name) (Leaves o as' name) cleanup_transaction
          installed (cleanup-New o as' name) (λ s q. q) (λ s q. complete q) r fs (Whole-New r p)
    committed_or_not-Leaves b (inr e) = rollback_failed_install-Leaves b e

    pub commit-Leaves :
        (b : Bool) (state : String)
        → Holds
            (λ r. Live r × (r.staged ≡ o.staged))
            (try (commit b name as' (at_state state)) >>= committed_or_not valid_target b)
            (Leaves o as' name)
            (Safe o as' name)
    commit-Leaves b state =
        Holds-bind (λ r. Live r × (r.staged ≡ o.staged)) (Safe o as' name)
          (Either (λ u. Whole) EitherWay) (Leaves o as' name)
          (try (commit b name as' (at_state state))) (committed_or_not valid_target b)
          (λ r fs p.
            Post-map (Either (λ u. Whole) EitherWay) (Either (λ u. Whole) EitherWay) EitherWay
              (Safe o as' name) (try (commit b name as' (at_state state)) r fs) (λ x s q. q)
              EitherWay-Safe
              (Holds-try (λ r. Live r × (r.staged ≡ o.staged)) EitherWay (λ u. Whole)
                (commit b name as' (at_state state)) (commit-Whole state b) r fs p))
          (committed_or_not-Leaves b)
