-- ===== src/Update/Undisturbed.antt =====
-- A recovery that nothing disturbs comes to its end: recoverInterruptedTransaction of
-- internal/update/apply.go.
use kelmor.Base.{
  String, Bool, true, false, not, ◌&&◌, ◌≡◌, refl, ap, ◌∙◌, subst, inl, inr, Option, none, some,
  List, [], ◌∷◌, ◌==◌, All, Bool-cases,
}
use kelmor.Base.Table.{Table, lookup}
use kelmor.Update.Root.{
  File, SnapshotEntry, SnapshotMetadata, Root, Io, done, resume, act, remove_tree, look, ◌>>=◌,
  ◌>>◌,
}
use kelmor.Update.Transaction.{
  found, restore_target, restore_targets, restore_release, rollback_transaction_with_metadata,
  put_live, drop_live, set_journal, write_transaction_metadata, cleanup_transaction,
  recover_journal, recover_interrupted_transaction, run_activation_and_health_checks, when_runner,
}
use kelmor.Update.Rules.{Post}
use kelmor.Update.Pending.{Copied, Covered, journal-Pending}
use kelmor.Update.Rollback.{Open, Pending-Trail}
use kelmor.Update.Trail.{runtime-Copied, Left, Noted, restore_target-Trail, restore_targets-Trail}

-- The program ends with a value.
abbrev pub Finishes : {A : Type 0} → Io A → Root → Type 0
Finishes {A} m r = (a : A) × (r' : Root) × (m r [] ≡ (r', [], done a))

pub Finishes-bind :
    {A B : Type 0} (m : Io A) (k : A → Io B) (r : Root) (x : Finishes m r)
    → Finishes (k (x.0)) (x.1)
    → Finishes (m >>= k) r
Finishes-bind m k r x y = (y.0, y.1, ap (λ z. resume z k) x.2 ∙ y.2)

pub Post-Finishes :
    {A : Type 0} (Q : A → Root → Type 0) (I : Root → Type 0) (m : Io A) (r : Root)
    → Post Q I (m r [])
    → (x : Finishes m r) → Q (x.0) (x.1)
Post-Finishes Q I m r h x = subst (Post Q I) x.2 h

fetch-then :
    (g : Root → Option File) (k : File → Root → Root) (r : Root) (f : File)
    → g r ≡ some f
    → ((look g >>= found) >>= λ f. act (k f)) r [] ≡ (k f r, [], done tt)
unfolding act
fetch-then g k r f e = ap (λ x. resume (found x r []) (λ f. act (k f))) e

module _ (valid_target : String → Bool) (o : Root) (saved : Table File)
    (saved_release : Option File) (ts : List SnapshotEntry) (exists : Bool) where
  copied : (e : Bool) (c old : Option File) → e ≡ true → Copied e c old → (f : File) × (c ≡ some f)
  copied true c old h k = (k.0, k.1)
  copied false c old h k = cc

  abbrev Live : Root → Type 0
  Live = Open o saved saved_release ts exists

  abbrev Rest : List SnapshotEntry → Root → Type 0
  Rest =
      Left valid_target o saved saved_release ts exists Live
        (Pending-Trail o saved saved_release ts exists)

  restore_target-Finishes :
      (e : SnapshotEntry) (r : Root)
      → valid_target e.target ≡ true
      → Covered o saved e
      → Live r
      → Finishes (restore_target valid_target e) r
  unfolding restore_target act
  restore_target-Finishes e r ok c p = rw ok (elim (Bool-cases (e.kind == "schema")) [
    | inl schema ↦ rw schema (tt, r, refl)
    | inr runtime ↦ rw runtime (elim (Bool-cases e.exists) [
      | inr gone ↦ rw gone (tt, drop_live e.target r, refl)
      | inl there ↦
          let (f, at) = copied e.exists _ _ there (runtime-Copied _ e.exists _ _ runtime c) in
          let here : lookup e.target r.saved ≡ some f = ap (lookup e.target) p.copies ∙ at in
          rw there (
            tt,
            put_live e.target f r,
            fetch-then (λ s. lookup e.target s.saved) (put_live e.target) r f here,
          )
    ])
  ])

  restore_targets-Finishes :
      (es : List SnapshotEntry) (r : Root)
      → All (λ e. valid_target e.target ≡ true) es
      → All (Noted o saved ts) es
      → Rest es r
      → Finishes (restore_targets valid_target es) r
  unfolding restore_targets
  restore_targets-Finishes [] r v n p = (tt, r, refl)
  restore_targets-Finishes (e ∷ es) r v n p =
      let first : Finishes (restore_target valid_target e) r =
        restore_target-Finishes e r v.0 (n.0.2) p.0 in
      Finishes-bind (restore_target valid_target e) (λ u. restore_targets valid_target es) r first
        (restore_targets-Finishes es first.1 v.1 n.1 (
          Post-Finishes (λ u. Rest es) Live (restore_target valid_target e) r
            (restore_target-Trail valid_target o saved saved_release ts exists Live
              (Pending-Trail o saved saved_release ts exists) e es n.0 r [] p)
            first))

  restore_release-Finishes :
      (b : Bool) (r : Root)
      → Copied b saved_release o.release
      → Live r
      → Finishes (restore_release b) r
  unfolding restore_release act
  restore_release-Finishes true r c p = (
    tt,
    record r { release = some c.0 },
    fetch-then (λ s. s.saved_release) (λ f s. record s { release = some f }) r c.0
        (p.release_copy ∙ c.1),
  )
  restore_release-Finishes false r c p = (tt, record r { release = none }, refl)

  abbrev journal_at : String → SnapshotMetadata
  journal_at s = record { state = s; targets = ts; current_release_exists = exists }

  module _ (valid : All (λ e. valid_target e.target ≡ true) ts) (noted : All (Noted o saved ts) ts)
      (release_copied : Copied exists saved_release o.release) where
    rollback-Finishes :
        (s : String) (r : Root)
        → Live r
        → Finishes (rollback_transaction_with_metadata valid_target (journal_at s)) r
    unfolding rollback_transaction_with_metadata write_transaction_metadata act
    rollback-Finishes s r p =
        let r1 : Root = set_journal (journal_at "rolling-back") r in
        let p1 : Live r1 =
          journal-Pending o saved saved_release ts exists r "rolling-back" refl p in
        let rest : Rest ts r1 = (p1, (Pending-Trail o saved saved_release ts exists).rest r1 p1) in
        let second : Finishes (restore_targets valid_target ts) r1 =
          restore_targets-Finishes ts r1 valid noted rest in
        Finishes-bind
          (act (set_journal (journal_at "rolling-back")) >> restore_targets valid_target ts)
          (λ u. restore_release exists) r second
          (restore_release-Finishes exists second.1 release_copied
            (Post-Finishes (λ u. Rest []) Live (restore_targets valid_target ts) r1
              (restore_targets-Trail valid_target o saved saved_release ts exists Live
                (Pending-Trail o saved saved_release ts exists) ts noted r1 [] rest)
              second).0)

    when_runner-Finishes :
        (b : Bool) (r : Root) → Finishes (when_runner b run_activation_and_health_checks) r
    unfolding run_activation_and_health_checks act
    when_runner-Finishes true r = (tt, r, refl)
    when_runner-Finishes false r = (tt, r, refl)

    cleanup-Finishes : (r : Root) → Finishes cleanup_transaction r
    unfolding cleanup_transaction remove_tree act
    cleanup-Finishes r = (tt, _, refl)

    undo-Finishes :
        (s : String) (runner : Bool) (r : Root)
        → Live r
        → Finishes
            (rollback_transaction_with_metadata valid_target (journal_at s)
              >> when_runner runner run_activation_and_health_checks
              >> cleanup_transaction)
            r
    undo-Finishes s runner r p =
        let rolled : Finishes (rollback_transaction_with_metadata valid_target (journal_at s)) r =
          rollback-Finishes s r p in
        let run : Finishes (when_runner runner run_activation_and_health_checks) rolled.1 =
          when_runner-Finishes runner rolled.1 in
        let both : Finishes
            (rollback_transaction_with_metadata valid_target (journal_at s)
              >> when_runner runner run_activation_and_health_checks)
            r =
          Finishes-bind (rollback_transaction_with_metadata valid_target (journal_at s))
            (λ u. when_runner runner run_activation_and_health_checks) r rolled run in
        Finishes-bind
          (rollback_transaction_with_metadata valid_target (journal_at s)
            >> when_runner runner run_activation_and_health_checks)
          (λ u. cleanup_transaction) r both (cleanup-Finishes both.1)

    pub recover-Finishes :
        (runner required : Bool) (r : Root)
        → not runner && required ≡ false
        → Live r
        → Finishes (recover_interrupted_transaction valid_target runner required) r
    unfolding recover_interrupted_transaction recover_journal act
    recover-Finishes runner required r ok p =
        rw (p.transaction, p.journal, p.uncommitted, ok)
          (undo-Finishes p.state runner
            (record r { transaction = true; journal = some (journal_at p.state) })
            (record {
              state = p.state;
              journal = refl;
              uncommitted = p.uncommitted;
              transaction = refl;
              copies = p.copies;
              release_copy = p.release_copy;
              rest = p.rest;
            }))
