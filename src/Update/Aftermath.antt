-- ===== src/Update/Aftermath.antt =====
-- Recovery from whatever an installation may leave behind: recoverInterruptedTransaction of
-- internal/update/apply.go.
use kelmor.Base.{
  String, Bool, true, false, not, ◌&&◌, ◌≡◌, sym, ap, ◌∙◌, subst, ◌⊎◌, inl, inr, Option, List, [],
  All,
}
use kelmor.Base.Table.{Table, lookup}
use kelmor.Update.Root.{File, SnapshotEntry, SnapshotMetadata, Root, Fate, done}
use kelmor.Update.Transaction.{
  Artifact, cleanup_transaction, recover_journal, recover_interrupted_transaction,
}
use kelmor.Update.Cleanup.{cleanup-Cleaned, recover-from}
use kelmor.Update.Rules.{Post, Post-map, Holds}
use kelmor.Update.Pending.{Snapshot, Pending}
use kelmor.Update.Copies.{Names}
use kelmor.Update.Rollback.{Closed, Recovered}
use kelmor.Update.Recovery.{recover-Pending, recover-Settled}
use kelmor.Update.Undisturbed.{Finishes, Post-Finishes, recover-Finishes}
use kelmor.Update.Safe.{
  All-Noted, Sealed, New, Unharmed, Safe, unharmed, underway, settled, complete,
}
use kelmor.Update.Leaves.{Old, cleanup-New}
use kelmor.Update.Outcomes.{prune-Unharmed}

module _ (o : Root) (as' : List Artifact) (name : String) where
  -- Recovery has come to its end.
  abbrev pub Over : Root → Type 0
  Over r = Old o as' r ⊎ New o as' name r

  Recovered-Over :
      (saved : Table File) (saved_release : Option File) (ts : List SnapshotEntry) (exists : Bool)
      → Names o as' ts
      → (r : Root) → Recovered o saved saved_release ts exists r
      → Over r
  Recovered-Over saved saved_release ts exists names r p =
      inl (record {
        targets = λ k h. p.0.rest k ((names k).1 ∙ h);
        release = p.0.release;
        over = p.1;
      })

  -- A recovery that has nothing to roll back.
  abbrev Idle : (Root → Type 0) → Type 0
  Idle J = (r : Root) → J r → Sealed r

  sealed_journal :
      (J : Root → Type 0) (valid_target : String → Bool) (runner required : Bool)
      (Q : Unit {0} → Root → Type 0)
      → Idle J
      → Holds J cleanup_transaction Q J
      → (j : Option SnapshotMetadata)
      → Holds (λ r. J r × (r.journal ≡ j)) (recover_journal valid_target runner required j) Q J
  sealed_journal J valid_target runner required Q idle h j r fs (p, e) = elim (idle r p) [
    | inl gone ↦
        subst
          (λ (x : Option SnapshotMetadata).
            Post Q J (recover_journal valid_target runner required x r fs))
          (sym gone ∙ e) (unfold recover_journal in h r fs p)
    | inr (md, at, over) ↦
        subst
          (λ (x : Option SnapshotMetadata).
            Post Q J (recover_journal valid_target runner required x r fs))
          (sym at ∙ e) (unfold recover_journal in rw over (h r fs p))
  ]

  idle-Holds :
      (J : Root → Type 0) (valid_target : String → Bool) (runner required : Bool)
      (Q : Unit {0} → Root → Type 0)
      → Idle J
      → ((r : Root) → J r → r.transaction ≡ false → Q tt r)
      → Holds J cleanup_transaction Q J
      → Holds J (recover_interrupted_transaction valid_target runner required) Q J
  idle-Holds J valid_target runner required Q idle absent h =
      recover-from J J Q valid_target runner required (λ r p. p) absent
        (sealed_journal J valid_target runner required Q idle h)

  Unharmed-Over : (r : Root) → Unharmed o r → r.transaction ≡ false → Over r
  Unharmed-Over r p e = inl (record { targets = λ k h. ap (lookup k) p.1; release = p.2; over = e })

  recover-Unharmed :
      (valid_target : String → Bool) (runner required : Bool)
      → Holds
          (Unharmed o)
          (recover_interrupted_transaction valid_target runner required)
          (λ u. Over)
          (Unharmed o)
  recover-Unharmed valid_target runner required =
      idle-Holds (Unharmed o) valid_target runner required (λ u. Over) (λ r p. inl p.0)
        Unharmed-Over
        (λ r fs p.
          Post-map (λ u s. Unharmed o s × (s.transaction ≡ false)) (λ u. Over) (Unharmed o)
            (Unharmed o) (cleanup_transaction r fs) (λ u s q. Unharmed-Over s q.0 q.1) (λ s q. q)
            (cleanup-Cleaned (Unharmed o) (prune-Unharmed o as' name) (λ s q. q) r fs p))

  recover-New :
      (valid_target : String → Bool) (runner required : Bool)
      → Holds
          (New o as' name)
          (recover_interrupted_transaction valid_target runner required)
          (λ u. Over)
          (New o as' name)
  recover-New valid_target runner required =
      idle-Holds (New o as' name) valid_target runner required (λ u. Over) (λ r p. p.1)
        (λ r p e. inr p)
        (λ r fs p.
          Post-map (λ u. New o as' name) (λ u. Over) (New o as' name) (New o as' name)
            (cleanup_transaction r fs) (λ u s q. inr q) (λ s q. q) (cleanup-New o as' name r fs p))

  -- From whatever an installation leaves behind, a recovery, whatever happens to it, leaves such a
  -- root again; and one that comes to its end leaves all old files but the schemas and the old
  -- release, with no transaction, or the complete new release.
  pub recover-Safe :
      (valid_target : String → Bool) (runner required : Bool) (r : Root) (fs : List Fate)
      → Safe o as' name r
      → Post
          (λ u. Over)
          (Safe o as' name)
          (recover_interrupted_transaction valid_target runner required r fs)
  recover-Safe valid_target runner required r fs (unharmed p) =
      Post-map (λ u. Over) (λ u. Over) (Unharmed o) (Safe o as' name)
        (recover_interrupted_transaction valid_target runner required r fs) (λ u s q. q)
        (λ s q. unharmed q) (recover-Unharmed valid_target runner required r fs p)
  recover-Safe valid_target runner required r fs (complete p) =
      Post-map (λ u. Over) (λ u. Over) (New o as' name) (Safe o as' name)
        (recover_interrupted_transaction valid_target runner required r fs) (λ u s q. q)
        (λ s q. complete q) (recover-New valid_target runner required r fs p)
  recover-Safe valid_target runner required r fs
        (underway saved saved_release ts exists sn names p) =
      Post-map (λ u. Recovered o saved saved_release ts exists) (λ u. Over)
        (λ s. Pending o saved saved_release ts exists s ⊎ Closed o saved saved_release ts exists s)
        (Safe o as' name) (recover_interrupted_transaction valid_target runner required r fs)
        (λ u s q. Recovered-Over saved saved_release ts exists names s q) either
        (recover-Pending o saved saved_release ts exists valid_target runner required
          (All-Noted o saved ts sn.covered) sn.release r fs p)
    where
      either :
          (s : Root)
          → Pending o saved saved_release ts exists s ⊎ Closed o saved saved_release ts exists s
          → Safe o as' name s
      either s (inl q) = underway saved saved_release ts exists sn names q
      either s (inr q) = settled saved saved_release ts exists sn names q
  recover-Safe valid_target runner required r fs
        (settled saved saved_release ts exists sn names p) =
      Post-map (λ u. Recovered o saved saved_release ts exists) (λ u. Over)
        (Closed o saved saved_release ts exists) (Safe o as' name)
        (recover_interrupted_transaction valid_target runner required r fs)
        (λ u s q. Recovered-Over saved saved_release ts exists names s q)
        (λ s q. settled saved saved_release ts exists sn names q)
        (recover-Settled o saved saved_release ts exists valid_target runner required
          (All-Noted o saved ts sn.covered) sn.release r fs p)

-- While the journal is open and the copies are whole, a recovery that nothing disturbs comes to its
-- end, with every old file back but the schemas, the old release, and no transaction left. It has a
-- runner or does not require one, and the journal's targets are valid.
pub recover-restores :
    (o : Root) (as' : List Artifact) (saved : Table File) (saved_release : Option File)
    (ts : List SnapshotEntry) (exists : Bool) (valid_target : String → Bool)
    (runner required : Bool) (r : Root)
    → All (λ e. valid_target e.target ≡ true) ts
    → Snapshot o saved saved_release ts exists
    → Names o as' ts
    → Pending o saved saved_release ts exists r
    → not runner && required ≡ false
    → (r' : Root) × (recover_interrupted_transaction valid_target runner required r []
        ≡ (r', [], done tt))
      × Old o as' r'
recover-restores o as' saved saved_release ts exists valid_target runner required r valid sn names p
      ok =
    let end : Finishes (recover_interrupted_transaction valid_target runner required) r =
      recover-Finishes valid_target o saved saved_release ts exists valid
        (All-Noted o saved ts sn.covered) sn.release runner required r ok p in
    let back : Recovered o saved saved_release ts exists end.1 =
      Post-Finishes (λ u. Recovered o saved saved_release ts exists)
        (λ s. Pending o saved saved_release ts exists s ⊎ Closed o saved saved_release ts exists s)
        (recover_interrupted_transaction valid_target runner required) r
        (recover-Pending o saved saved_release ts exists valid_target runner required
          (All-Noted o saved ts sn.covered) sn.release r [] p)
        end in
    (
      end.1,
      end.2,
      record {
        targets = λ k h. back.0.rest k ((names k).1 ∙ h);
        release = back.0.release;
        over = back.1;
      },
    )
