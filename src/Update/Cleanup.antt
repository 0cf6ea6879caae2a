-- ===== src/Update/Cleanup.antt =====
-- What cleanupTransaction and the commands of internal/update/apply.go keep, and how
-- recoverInterruptedTransaction branches.
use kelmor.Base.{Bool, true, false, not, ◌≡◌, refl, Option, if◌then◌else◌, String, ◌⧺◌}
use kelmor.Update.Root.{Root, Entry, prune, SnapshotMetadata, Io, pure, fail, look, ◌>>=◌, ◌>>◌}
use kelmor.Update.Transaction.{
  in_staging, in_transaction, remove_staging, remove_transaction, cleanup_transaction,
  recover_journal, recover_interrupted_transaction, command, run_activation_and_health_checks,
  when_runner,
}
use kelmor.Update.Rules.{Post-map, Holds, Holds-bind, Holds-look, Holds-remove_tree, Holds-or_else}

-- What does not depend on the directories.
module _ (J : Root → Type 0) (pruned : (gone : Entry → Bool) (r : Root) → J r → J (prune gone r))
    (marked : (r : Root) → J r → J (record r { transaction = false })) where
  abbrev pub Cleaned : Root → Type 0
  Cleaned r = J r × (r.transaction ≡ false)

  pub cleanup-Cleaned : Holds J cleanup_transaction (λ u. Cleaned) J
  unfolding cleanup_transaction
  cleanup-Cleaned =
      Holds-bind J J (λ u. J) (λ u. Cleaned) remove_staging (λ u. remove_transaction)
        (Holds-remove_tree J J (λ u. J) in_staging (λ r. r) (λ r p. p) (λ r g p. pruned _ r p)
          (λ r p. pruned _ r p) (λ r p. pruned _ r p))
        (λ u.
          Holds-remove_tree J J (λ u. Cleaned) in_transaction
            (λ r. record r { transaction = false }) (λ r p. p) (λ r g p. pruned _ r p)
            (λ r p. marked _ (pruned _ r p)) (λ r p. (marked _ (pruned _ r p), refl)))

  pub cleanup-Holds : Holds J cleanup_transaction (λ u. J) J
  cleanup-Holds r fs p =
      Post-map (λ u. Cleaned) (λ u. J) J J (cleanup_transaction r fs) (λ u s q. q.0) (λ s q. q)
        (cleanup-Cleaned r fs p)

-- The commands of the runner leave the root alone.
module _ (J : Root → Type 0) where
  command-Holds : (what : String) → Holds J (command what) (λ u. J) J
  command-Holds what =
      Holds-or_else J J (λ u. J) (look (λ r. tt)) (λ e. fail (what ⧺ (": " ⧺ e)))
        (Holds-look J J (λ u. J) (λ r. tt) (λ r p. p) (λ r p. p)) (λ e r fs p. p)

  then_command :
      (m : Io (Unit {0})) (what : String)
      → Holds J m (λ u. J) J
      → Holds J (m >> command what) (λ u. J) J
  then_command m what h =
      Holds-bind J J (λ u. J) (λ u. J) m (λ u. command what) h (λ u. command-Holds what)

  pub checks-Holds : Holds J run_activation_and_health_checks (λ u. J) J
  unfolding run_activation_and_health_checks
  checks-Holds = then_command _ _ (
      then_command _ _ (
        then_command _ _
          (then_command _ _ (then_command _ _ (then_command _ _ (command-Holds _))))))

  pub when_runner-Holds :
      (runner : Bool) → Holds J (when_runner runner run_activation_and_health_checks) (λ u. J) J
  when_runner-Holds true = checks-Holds
  when_runner-Holds false = λ r fs p. p

-- recoverInterruptedTransaction, from what it does with the journal.
pub recover-from :
    (J I : Root → Type 0) (Q : Unit {0} → Root → Type 0) (valid_target : String → Bool)
    (runner required : Bool)
    → ((r : Root) → J r → I r)
    → ((r : Root) → J r → r.transaction ≡ false → Q tt r)
    → ((j : Option SnapshotMetadata)
        → Holds (λ r. J r × (r.journal ≡ j)) (recover_journal valid_target runner required j) Q I)
    → Holds J (recover_interrupted_transaction valid_target runner required) Q I
unfolding recover_interrupted_transaction
recover-from J I Q valid_target runner required weak absent journal =
    Holds-bind J I (λ t r. J r × (r.transaction ≡ t)) Q (look (λ r. r.transaction))
      (λ t.
        if not t
        then pure tt
        else (look (λ r. r.journal) >>= recover_journal valid_target runner required))
      (Holds-look J I (λ t r. J r × (r.transaction ≡ t)) (λ r. r.transaction) weak
        (λ r p. (p, refl)))
      by_marker
  where
    by_marker :
        (t : Bool)
        → Holds
            (λ r. J r × (r.transaction ≡ t))
            (if not t
              then pure tt
              else (look (λ r. r.journal) >>= recover_journal valid_target runner required))
            Q
            I
    by_marker true =
        Holds-bind (λ r. J r × (r.transaction ≡ true)) I (λ j r. J r × (r.journal ≡ j)) Q
          (look (λ r. r.journal)) (recover_journal valid_target runner required)
          (Holds-look (λ r. J r × (r.transaction ≡ true)) I (λ j r. J r × (r.journal ≡ j))
            (λ r. r.journal) (λ r p. weak r p.0) (λ r p. (p.0, refl)))
          journal
    by_marker false = λ r fs p. absent r p.0 p.1
