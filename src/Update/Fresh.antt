-- ===== src/Update/Fresh.antt =====
-- The artifacts on their way to their targets: installStagedArtifacts of internal/update/apply.go,
-- up to the journal's "committed".
use kelmor.Base.{
  String, Bool, true, false, ◌≡◌, refl, sym, ap, ◌∙◌, ◌⊎◌, Option, some, List, [], ◌∷◌, ◌==◌, arith,
  if◌then◌else◌, eq_iff, eq_refl,
}
use kelmor.Base.Table.{Table, lookup, insert, erase, lookup-insert, lookup-erase}
use kelmor.Update.Root.{File, SnapshotEntry, SnapshotMetadata, Root, Io, act, look, ◌>>=◌, ◌>>◌}
use kelmor.Update.Transaction.{
  Artifact, found, install_staged_artifacts, write_transaction_metadata, set_journal,
  run_activation_and_health_checks,
}
use kelmor.Update.Install.{release_file, put_release, activate}
use kelmor.Update.Cleanup.{checks-Holds}
use kelmor.Update.Rules.{Post-map, Holds, Holds-bind, Holds-act}
use kelmor.Update.Pending.{is_named, Agrees, insert-Pending, journal-Pending, release-Pending}
use kelmor.Update.Rollback.{Open}
use kelmor.Update.Copies.{is_target}
use kelmor.Update.Trail.{fetch-Holds}

-- The new release stands, and nothing but its targets has changed.
pub record Fresh (o : Root) (as' : List Artifact) (name : String) (r : Root) : Type 0 where
  pub targets : (k : String) → is_target as' k ≡ true → lookup k r.live ≡ lookup k o.staged
  pub others : Agrees (is_target as') o r
  pub release : r.release ≡ some (release_file name)

module _ (o : Root) (saved : Table File) (saved_release : Option File) (ts : List SnapshotEntry)
    (exists : Bool) where
  abbrev Live : Root → Type 0
  Live = Open o saved saved_release ts exists

  -- The targets that `moved` names have their staged files.
  abbrev Moved : (String → Bool) → Root → Type 0
  Moved moved r =
      Live r
      × ((k : String) (f : File) → lookup k r.staged ≡ some f → lookup k o.staged ≡ some f)
      × ((k : String) → moved k ≡ true → lookup k r.live ≡ lookup k o.staged)

  abbrev and_target : String → (String → Bool) → String → Bool
  and_target t moved k = if t == k then true else moved k

  abbrev move_file : String → File → Root → Root
  move_file t f r = record r { staged = erase t r.staged; live = insert t f r.live }

  move_file-Live :
      (t : String) (f : File) (r : Root) → is_named ts t ≡ true → Live r → Live (move_file t f r)
  move_file-Live t f r n p =
      release-Pending o saved saved_release ts exists (record r { live = insert t f r.live })
        r.release (erase t r.staged) (insert-Pending o saved saved_release ts exists r t f n p)

  move_file-Moved :
      (moved : String → Bool) (t : String) (f : File)
      → is_named ts t ≡ true
      → Holds
          (λ r. Moved moved r × (lookup t o.staged ≡ some f))
          (act (move_file t f))
          (λ u. Moved (and_target t moved))
          Live
  move_file-Moved moved t f n =
      Holds-act (λ r. Moved moved r × (lookup t o.staged ≡ some f)) Live
        (λ u. Moved (and_target t moved)) (move_file t f) (λ r p. p.0.0)
        (λ r p. move_file-Live t f r n p.0.0)
        (λ r p. (
          move_file-Live t f r n p.0.0,
          λ k g h. p.0.1 k g (ground (arith, lookup-erase t k r.staged)),
          λ k h. ground (arith, lookup-insert t k f r.live, eq_iff t k, p.0.2 k, p.1),
        ))

  abbrev all_moved : List Artifact → (String → Bool) → String → Bool
  all_moved [] moved = moved
  all_moved (a ∷ as') moved = all_moved as' (and_target a.target moved)

  install-Moved :
      (as' : List Artifact) (moved : String → Bool)
      → ((k : String) → is_target as' k ≡ true → is_named ts k ≡ true)
      → Holds (Moved moved) (install_staged_artifacts as') (λ u. Moved (all_moved as' moved)) Live
  unfolding install_staged_artifacts
  install-Moved [] moved n = λ r fs p. p
  install-Moved (a ∷ as') moved n =
      Holds-bind (Moved moved) Live (λ f r. Moved moved r × (lookup a.target o.staged ≡ some f))
        (λ u. Moved (all_moved (a ∷ as') moved)) (look (λ r. lookup a.target r.staged) >>= found)
        (λ f. act (move_file a.target f) >> install_staged_artifacts as')
        (fetch-Holds (Moved moved) Live (λ f. lookup a.target o.staged ≡ some f)
          (λ r. lookup a.target r.staged) (λ r p. p.0) (λ r f p h. p.1 a.target f h))
        (λ f.
          Holds-bind (λ r. Moved moved r × (lookup a.target o.staged ≡ some f)) Live
            (λ u. Moved (and_target a.target moved)) (λ u. Moved (all_moved (a ∷ as') moved))
            (act (move_file a.target f)) (λ u. install_staged_artifacts as')
            (move_file-Moved moved a.target f (n a.target (rw (eq_refl a.target) refl)))
            (λ u. install-Moved as' (and_target a.target moved) (λ k h. n k (ground (arith)))))

  all_moved-is_target :
      (as' : List Artifact) (moved : String → Bool) (k : String)
      → all_moved as' moved k ≡ (if is_target as' k then true else moved k)
  all_moved-is_target [] moved k = refl
  all_moved-is_target (a ∷ as') moved k =
      ground (arith, all_moved-is_target as' (and_target a.target moved) k)

  module _ (as' : List Artifact) (name : String)
      (names : (k : String) → is_named ts k ≡ is_target as' k) where
    abbrev Start : Root → Type 0
    Start r = Live r × (r.staged ≡ o.staged)

    abbrev all : String → Bool
    all = all_moved as' (λ k. false)

    -- The new files stand, and the journal is open.
    abbrev pub Active : Root → Type 0
    Active r = Live r × Fresh o as' name r

    abbrev at_state : String → SnapshotMetadata
    at_state state = record { state = state; targets = ts; current_release_exists = exists }

    set_journal-Live :
        (state : String)
        → (state == "committed") ≡ false
        → (r : Root) → Live r
        → Live (set_journal (at_state state) r)
    set_journal-Live state u r p = journal-Pending o saved saved_release ts exists r state u p

    write_applying :
        Holds Start
          (write_transaction_metadata (at_state "applying"))
          (λ u. Moved (λ k. false))
          Live
    unfolding write_transaction_metadata
    write_applying =
        Holds-act Start Live (λ u. Moved (λ k. false)) (set_journal (at_state "applying"))
          (λ r p. p.0) (λ r p. set_journal-Live "applying" refl r p.0)
          (λ r p. (
            set_journal-Live "applying" refl r p.0,
            λ k f h. ap (lookup k) (sym p.1) ∙ h,
            λ k h. cc,
          ))

    all_targets : (k : String) → all k ≡ is_target as' k
    all_targets k = ground (arith, all_moved-is_target as' (λ k. false) k)

    Moved-Fresh : (r : Root) → Moved all r → Active (put_release name r)
    Moved-Fresh r p = (
      release-Pending o saved saved_release ts exists r (some (release_file name)) r.staged p.0,
      record {
        targets = λ k h. p.2 k (all_targets k ∙ h);
        others = λ k h. p.0.rest k (names k ∙ h);
        release = refl;
      },
    )

    write_activated :
        Holds Active (write_transaction_metadata (at_state "activated")) (λ u. Active) Live
    unfolding write_transaction_metadata
    write_activated =
        Holds-act Active Live (λ u. Active) (set_journal (at_state "activated")) (λ r p. p.0)
          (λ r p. set_journal-Live "activated" refl r p.0)
          (λ r p. (
            set_journal-Live "activated" refl r p.0,
            record { targets = p.1.targets; others = p.1.others; release = p.1.release },
          ))

    abbrev step :
        (P : Root → Type 0) (Q R : Unit {0} → Root → Type 0) (m k : Io (Unit {0}))
        → Holds P m Q Live
        → Holds (Q tt) k R Live
        → Holds P (m >> k) R Live
    step P Q R m k h g = Holds-bind P Live Q R m (λ u. k) h (λ u. g)

    checks_all : Holds (Moved all) run_activation_and_health_checks (λ u. Moved all) Live
    checks_all r fs p =
        Post-map (λ u. Moved all) (λ u. Moved all) (Moved all) Live
          (run_activation_and_health_checks r fs) (λ u s q. q) (λ s q. q.0)
          (checks-Holds (Moved all) r fs p)

    pub activate-Active :
        (state : String) → Holds Start (activate name as' (at_state state)) (λ u. Active) Live
    unfolding activate
    activate-Active state =
        step Start (λ u. Active) (λ u. Active)
          (write_transaction_metadata (at_state "applying")
            >> install_staged_artifacts as'
            >> run_activation_and_health_checks
            >> act (put_release name))
          (write_transaction_metadata (at_state "activated"))
          (step Start (λ u. Moved all) (λ u. Active)
            (write_transaction_metadata (at_state "applying")
              >> install_staged_artifacts as'
              >> run_activation_and_health_checks)
            (act (put_release name))
            (step Start (λ u. Moved all) (λ u. Moved all)
              (write_transaction_metadata (at_state "applying") >> install_staged_artifacts as')
              run_activation_and_health_checks
              (step Start (λ u. Moved (λ k. false)) (λ u. Moved all)
                (write_transaction_metadata (at_state "applying")) (install_staged_artifacts as')
                write_applying (install-Moved as' (λ k. false) (λ k h. names k ∙ h)))
              checks_all)
            (Holds-act (Moved all) Live (λ u. Active) (put_release name) (λ r p. p.0)
              (λ r p. (Moved-Fresh r p).0) (λ r p. Moved-Fresh r p)))
          write_activated

    -- The journal says that the update is complete.
    abbrev pub Complete : Root → Type 0
    Complete r =
        Fresh o as' name r × ((q : Root) × Live q × (r ≡ set_journal (at_state "committed") q))

    pub Unsettled : Root → Type 0
    Unsettled r = Live r ⊎ Complete r
