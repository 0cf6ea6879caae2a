-- ===== src/Update/Recovery.antt =====
-- Recovery from a transaction that is under way, and from one whose directory is half removed:
-- rollbackTransactionWithMetadata, cleanupTransaction and recoverInterruptedTransaction of
-- internal/update/apply.go.
use kelmor.Base.{
  String, Bool, false, not, ◌&&◌, ◌≡◌, sym, subst, ◌∙◌, ◌⊎◌, inl, inr, Option, some, List, ◌==◌,
  All, Bool-cases,
}
use kelmor.Base.Table.{Table}
use kelmor.Update.Root.{File, SnapshotEntry, SnapshotMetadata, Root, Io, ◌>>◌}
use kelmor.Update.Transaction.{
  cleanup_transaction, recover_journal, recover_interrupted_transaction,
  run_activation_and_health_checks, when_runner, rollback_transaction_with_metadata,
}
use kelmor.Update.Rules.{Post, Post-map, Holds, Holds-bind}
use kelmor.Update.Pending.{is_schema, Agrees, Copied}
use kelmor.Update.Rollback.{
  Open, Closed, Recovered, Pending-Trail, Settled-Trail, Pending-Settled, cleanup-Settled,
}
use kelmor.Update.Cleanup.{recover-from, when_runner-Holds}
use kelmor.Update.Trail.{Trail, Noted, Back, rollback-from}

module _ (o : Root) (saved : Table File) (saved_release : Option File) (ts : List SnapshotEntry)
    (exists : Bool) where
  module _ (valid_target : String → Bool) (runner required : Bool)
      (noted : All (Noted o saved ts) ts) (release_copied : Copied exists saved_release o.release)
      (J I : Root → Type 0) (trail : Trail o saved saved_release ts exists J)
      (close : (r : Root)
        → J r
        → Agrees (is_schema ts) o r
        → r.release ≡ o.release
        → (Closed o saved saved_release ts exists) r)
      (weak : (r : Root) → J r → I r)
      (closed : (r : Root) → (Closed o saved saved_release ts exists) r → I r) where
    weaken :
        (P : Root → Type 0) (Q : Unit {0} → Root → Type 0) (m : Io (Unit {0}))
        → Holds P m Q (Closed o saved saved_release ts exists)
        → Holds P m Q I
    weaken P Q m h r fs p =
        Post-map Q Q (Closed o saved saved_release ts exists) I (m r fs) (λ a r q. q) closed
          (h r fs p)

    rollback_and_close :
        (state : String)
        → Holds J
            (rollback_transaction_with_metadata valid_target
                (record { state = state; targets = ts; current_release_exists = exists })
              >> when_runner runner run_activation_and_health_checks
              >> cleanup_transaction)
            (λ u. (Recovered o saved saved_release ts exists))
            I
    rollback_and_close state =
        Holds-bind J I (λ u. (Closed o saved saved_release ts exists))
          (λ u. (Recovered o saved saved_release ts exists))
          (rollback_transaction_with_metadata valid_target
              (record { state = state; targets = ts; current_release_exists = exists })
            >> when_runner runner run_activation_and_health_checks)
          (λ u. cleanup_transaction)
          (Holds-bind J I (λ u. (Closed o saved saved_release ts exists))
            (λ u. (Closed o saved saved_release ts exists))
            (rollback_transaction_with_metadata valid_target
              (record { state = state; targets = ts; current_release_exists = exists }))
            (λ u. when_runner runner run_activation_and_health_checks)
            (λ r fs p.
              Post-map (λ u. Back valid_target o saved saved_release ts exists J trail)
                (λ u. (Closed o saved saved_release ts exists)) J I
                (rollback_transaction_with_metadata valid_target
                  (record { state = state; targets = ts; current_release_exists = exists }) r fs)
                (λ u r b. close r b.0 b.1 b.2) weak
                (rollback-from valid_target o saved saved_release ts exists J trail J J state
                  trail.rolling (λ s q. q) (λ s q. q) noted release_copied r fs p))
            (λ u.
              weaken (Closed o saved saved_release ts exists)
                (λ u. (Closed o saved saved_release ts exists))
                (when_runner runner run_activation_and_health_checks)
                (when_runner-Holds (Closed o saved saved_release ts exists) runner)))
          (λ u.
            weaken (Closed o saved saved_release ts exists)
              (λ u. (Recovered o saved saved_release ts exists)) cleanup_transaction
              (cleanup-Settled o saved saved_release ts exists))

    pub recover_journal-Holds :
        (state : String)
        → (state == "committed") ≡ false
        → Holds J
            (recover_journal valid_target runner required
              (some (record { state = state; targets = ts; current_release_exists = exists })))
            (λ u. (Recovered o saved saved_release ts exists))
            I
    unfolding recover_journal
    recover_journal-Holds state pending = rw pending (elim (Bool-cases (not runner && required)) [
      | inl stop ↦ rw stop (λ r fs p. weak r p)
      | inr on ↦ rw on (rollback_and_close state)
    ])

  -- The transaction is known to be open where `b` is true.
  abbrev Looked : (Root → Type 0) → Option SnapshotMetadata → Root → Type 0
  Looked J j r = J r × (r.journal ≡ j)

  module _ (valid_target : String → Bool) (runner required : Bool)
      (noted : All (Noted o saved ts) ts)
      (release_copied : Copied exists saved_release o.release) where
    recover_journal-Pending :
        (j : Option SnapshotMetadata)
        → Holds
            (Looked (Open o saved saved_release ts exists) j)
            (recover_journal valid_target runner required j)
            (λ u. (Recovered o saved saved_release ts exists))
            (λ r.
              (Open o saved saved_release ts exists) r ⊎ (Closed o saved saved_release ts exists) r)
    recover_journal-Pending j r fs (p, e) =
        subst
          (λ (x : Option SnapshotMetadata).
            Post (λ u. (Recovered o saved saved_release ts exists))
              (λ s.
                (Open o saved saved_release ts exists) s
                ⊎ (Closed o saved saved_release ts exists) s)
              (recover_journal valid_target runner required x r fs))
          (sym p.journal ∙ e)
          (recover_journal-Holds valid_target runner required noted release_copied
            (Open o saved saved_release ts exists)
            (λ s.
              (Open o saved saved_release ts exists) s ⊎ (Closed o saved saved_release ts exists) s)
            (Pending-Trail o saved saved_release ts exists)
            (Pending-Settled o saved saved_release ts exists) (λ s q. inl q) (λ s q. inr q) p.state
            p.uncommitted r fs p)

    recover_journal-Settled :
        (j : Option SnapshotMetadata)
        → Holds
            (Looked (Closed o saved saved_release ts exists) j)
            (recover_journal valid_target runner required j)
            (λ u. (Recovered o saved saved_release ts exists))
            (Closed o saved saved_release ts exists)
    recover_journal-Settled j r fs (p, e) = elim p.journal [
      | inl gone ↦
          subst
            (λ (x : Option SnapshotMetadata).
              Post (λ u. (Recovered o saved saved_release ts exists))
                (Closed o saved saved_release ts exists)
                (recover_journal valid_target runner required x r fs))
            (sym gone ∙ e)
            (unfold recover_journal in (cleanup-Settled o saved saved_release ts exists) r fs p)
      | inr (state, at) ↦
          subst
            (λ (x : Option SnapshotMetadata).
              Post (λ u. (Recovered o saved saved_release ts exists))
                (Closed o saved saved_release ts exists)
                (recover_journal valid_target runner required x r fs))
            (sym at ∙ e)
            (elim (Bool-cases (state == "committed")) [
              | inl over ↦
                  unfold recover_journal in
                  rw over ((cleanup-Settled o saved saved_release ts exists) r fs p)
              | inr pending ↦
                  recover_journal-Holds valid_target runner required noted release_copied
                    (Closed o saved saved_release ts exists)
                    (Closed o saved saved_release ts exists)
                    (Settled-Trail o saved saved_release ts exists) (λ s q a e. q) (λ s q. q)
                    (λ s q. q) state pending r fs p
            ])
    ]

    pub recover-Pending :
        Holds
          (Open o saved saved_release ts exists)
          (recover_interrupted_transaction valid_target runner required)
          (λ u. Recovered o saved saved_release ts exists)
          (λ r. Open o saved saved_release ts exists r ⊎ Closed o saved saved_release ts exists r)
    recover-Pending =
        recover-from (Open o saved saved_release ts exists)
          (λ r. Open o saved saved_release ts exists r ⊎ Closed o saved saved_release ts exists r)
          (λ u. Recovered o saved saved_release ts exists) valid_target runner required
          (λ r p. inl p) (λ r p e. cc (p.transaction)) recover_journal-Pending

    pub recover-Settled :
        Holds
          (Closed o saved saved_release ts exists)
          (recover_interrupted_transaction valid_target runner required)
          (λ u. Recovered o saved saved_release ts exists)
          (Closed o saved saved_release ts exists)
    recover-Settled =
        recover-from (Closed o saved saved_release ts exists)
          (Closed o saved saved_release ts exists) (λ u. Recovered o saved saved_release ts exists)
          valid_target runner required (λ r p. p) (λ r p e. (p, e)) recover_journal-Settled
