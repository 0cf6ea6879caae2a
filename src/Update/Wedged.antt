-- ===== src/Update/Wedged.antt =====
-- An open journal whose copy of a target is gone, as a cleanup leaves it that died in the middle of
-- the directory: recoverInterruptedTransaction and cleanupTransaction of internal/update/apply.go.
use kelmor.Base.{
  String, Bool, true, false, not, ◌≡◌, refl, sym, ap, ◌∙◌, subst, Option, none, some, List, [], ◌∷◌,
  ◌==◌, any, ◌&&◌, Bool-cases, inl, inr,
}
use kelmor.Base.Table.{Table, lookup, insert, erase}
use kelmor.Update.Root.{File, SnapshotEntry, SnapshotMetadata, Root, Io, act, look, ◌>>=◌, ◌>>◌}
use kelmor.Update.Transaction.{
  found, restore_target, restore_targets, restore_release, put_live, set_journal,
  write_transaction_metadata, rollback_transaction_with_metadata, recover_journal,
  recover_interrupted_transaction, when_runner, run_activation_and_health_checks,
  cleanup_transaction,
}
use kelmor.Update.Rules.{Post, Holds, Holds-bind, Holds-act, Holds-look}
use kelmor.Update.Cleanup.{recover-from}

abbrev pub is_none : Option File → Bool
is_none none = true
is_none (some f) = false

-- A target that was there and is no schema, and whose copy is gone.
abbrev pub is_lost : Table File → SnapshotEntry → Bool
is_lost saved e = not (e.kind == "schema") && (e.exists && is_none (lookup e.target saved))

-- The journal is open, and the copies are those of `saved`.
pub record Wedged (saved : Table File) (ts : List SnapshotEntry) (exists : Bool) (r : Root)
    : Type 0 where
  pub state : String
  pub journal :
      r.journal ≡ some (record { state = state; targets = ts; current_release_exists = exists })
  pub uncommitted : (state == "committed") ≡ false
  pub transaction : r.transaction ≡ true
  pub copies : r.saved ≡ saved

lost_found :
    (b : Bool) (x : Option File) (saved : Option File)
    → (b && is_none saved) ≡ true
    → saved ≡ x
    → ((b ≡ true) × (x ≡ none))
lost_found true x none h e = (refl, sym e)
lost_found true x (some f) h e = cc
lost_found false x y h e = cc

module _ (valid_target : String → Bool) (saved : Table File) (ts : List SnapshotEntry)
    (exists : Bool) where
  abbrev Stuck : Root → Type 0
  Stuck = Wedged saved ts exists

  abbrev Never : Unit {0} → Root → Type 0
  Never u r = ⊥

  live-Stuck : (r : Root) (t : Table File) → Stuck r → Stuck (record r { live = t })
  live-Stuck r t p = record {
    state = p.state;
    journal = p.journal;
    uncommitted = p.uncommitted;
    transaction = p.transaction;
    copies = p.copies;
  }

  fetch-Stuck : (g : Root → Option File) → Holds Stuck (look g >>= found) (λ f. Stuck) Stuck
  fetch-Stuck g =
      Holds-bind Stuck Stuck (λ x. Stuck) (λ f. Stuck) (look g) found
        (Holds-look Stuck Stuck (λ x. Stuck) g (λ r p. p) (λ r p. p)) found_Stuck
    where
      found_Stuck : (x : Option File) → Holds Stuck (found x) (λ f. Stuck) Stuck
      found_Stuck none = λ r fs p. p
      found_Stuck (some f) = λ r fs p. p

  put-Stuck :
      (f : Root → Table File) → Holds Stuck (act (λ r. record r { live = f r })) (λ u. Stuck) Stuck
  put-Stuck f =
      Holds-act Stuck Stuck (λ u. Stuck) (λ r. record r { live = f r }) (λ r p. p)
        (λ r p. live-Stuck r (f r) p) (λ r p. live-Stuck r (f r) p)

  restore_target-Stuck :
      (e : SnapshotEntry) → Holds Stuck (restore_target valid_target e) (λ u. Stuck) Stuck
  unfolding restore_target
  restore_target-Stuck e = elim (Bool-cases (valid_target e.target)) [
    | inr bad ↦ rw bad (λ r fs p. p)
    | inl ok ↦ rw ok (elim (Bool-cases (e.kind == "schema")) [
      | inl schema ↦ rw schema (λ r fs p. p)
      | inr runtime ↦ rw runtime (elim (Bool-cases e.exists) [
        | inr gone ↦ rw gone (put-Stuck (λ r. erase e.target r.live))
        | inl there ↦ rw there (
            Holds-bind Stuck Stuck (λ f. Stuck) (λ u. Stuck)
              (look (λ r. lookup e.target r.saved) >>= found) (λ f. act (put_live e.target f))
              (fetch-Stuck (λ r. lookup e.target r.saved))
              (λ f. put-Stuck (λ r. insert e.target f r.live)))
      ])
    ])
  ]

  lost_kind : (b c : Bool) → (not b && c) ≡ true → (b ≡ false) × (c ≡ true)
  lost_kind true c h = cc
  lost_kind false c h = (refl, h)

  -- The copy that is gone stops the rollback.
  restore_lost :
      (e : SnapshotEntry)
      → is_lost saved e ≡ true
      → Holds Stuck (restore_target valid_target e) Never Stuck
  unfolding restore_target
  restore_lost e h = elim (Bool-cases (valid_target e.target)) [
    | inr bad ↦ rw bad (λ r fs p. p)
    | inl ok ↦
        let parts : ((e.kind == "schema") ≡ false)
            × ((e.exists && is_none (lookup e.target saved)) ≡ true) =
          lost_kind (e.kind == "schema") (e.exists && is_none (lookup e.target saved)) h in
        let gone : (e.exists ≡ true) × (lookup e.target saved ≡ none) =
          lost_found e.exists (lookup e.target saved) (lookup e.target saved) parts.1 refl in
        rw (ok, parts.0, gone.0)
          (Holds-bind Stuck Stuck (λ f r. ⊥) Never (look (λ r. lookup e.target r.saved) >>= found)
            (λ f. act (put_live e.target f))
            (Holds-bind Stuck Stuck (λ x r. Stuck r × (x ≡ none)) (λ f r. ⊥)
              (look (λ r. lookup e.target r.saved)) found
              (Holds-look Stuck Stuck (λ x r. Stuck r × (x ≡ none)) (λ r. lookup e.target r.saved)
                (λ r p. p) (λ r p. (p, ap (lookup e.target) p.copies ∙ gone.1)))
              not_found)
            (λ f r fs p. absurd p))
  ]
    where
      not_found : (x : Option File) → Holds (λ r. Stuck r × (x ≡ none)) (found x) (λ f r. ⊥) Stuck
      not_found none = λ r fs p. p.0
      not_found (some f) = λ r fs p. absurd (cc (p.1))

  restore_targets-lost :
      (es : List SnapshotEntry)
      → any (is_lost saved) es ≡ true
      → Holds Stuck (restore_targets valid_target es) Never Stuck
  unfolding restore_targets
  restore_targets-lost [] h = cc
  restore_targets-lost (e ∷ es) h = elim (Bool-cases (is_lost saved e)) [
    | inl lost ↦
        Holds-bind Stuck Stuck Never Never (restore_target valid_target e)
          (λ u. restore_targets valid_target es) (restore_lost e lost) (λ u r fs p. absurd p)
    | inr kept ↦
        Holds-bind Stuck Stuck (λ u. Stuck) Never (restore_target valid_target e)
          (λ u. restore_targets valid_target es) (restore_target-Stuck e)
          (λ u. restore_targets-lost es (rw kept at h))
  ]

  abbrev rolling : SnapshotMetadata
  rolling = record { state = "rolling-back"; targets = ts; current_release_exists = exists }

  rolling-Stuck : (r : Root) → Stuck r → Stuck (set_journal rolling r)
  rolling-Stuck r p = record {
    state = "rolling-back";
    journal = refl;
    uncommitted = refl;
    transaction = p.transaction;
    copies = p.copies;
  }

  stop_early : (m k : Io (Unit {0})) → Holds Stuck m Never Stuck → Holds Stuck (m >> k) Never Stuck
  stop_early m k h = Holds-bind Stuck Stuck Never Never m (λ u. k) h (λ u r fs p. absurd p)

  module _ (lost : any (is_lost saved) ts ≡ true) where
    rollback-lost :
        (state : String)
        → Holds Stuck
            (rollback_transaction_with_metadata valid_target
              (record { state = state; targets = ts; current_release_exists = exists }))
            Never
            Stuck
    unfolding rollback_transaction_with_metadata write_transaction_metadata
    rollback-lost state =
        stop_early (write_transaction_metadata rolling >> restore_targets valid_target ts)
          (restore_release exists)
          (Holds-bind Stuck Stuck (λ u. Stuck) Never (write_transaction_metadata rolling)
            (λ u. restore_targets valid_target ts)
            (Holds-act Stuck Stuck (λ u. Stuck) (set_journal rolling) (λ r p. p) rolling-Stuck
              rolling-Stuck)
            (λ u. restore_targets-lost ts lost))

    recover_open :
        (runner required : Bool) (state : String)
        → (state == "committed") ≡ false
        → Holds Stuck
            (recover_journal valid_target runner required
              (some (record { state = state; targets = ts; current_release_exists = exists })))
            Never
            Stuck
    unfolding recover_journal
    recover_open runner required state pending =
        rw pending (elim (Bool-cases (not runner && required)) [
          | inl stop ↦ rw stop (λ r fs p. p)
          | inr on ↦ rw on (
              stop_early
                (rollback_transaction_with_metadata valid_target
                    (record { state = state; targets = ts; current_release_exists = exists })
                  >> when_runner runner run_activation_and_health_checks)
                cleanup_transaction
                (stop_early
                  (rollback_transaction_with_metadata valid_target
                    (record { state = state; targets = ts; current_release_exists = exists }))
                  (when_runner runner run_activation_and_health_checks) (rollback-lost state)))
        ])

    recover_read :
        (runner required : Bool) (j : Option SnapshotMetadata)
        → Holds
            (λ r. Stuck r × (r.journal ≡ j))
            (recover_journal valid_target runner required j)
            Never
            Stuck
    recover_read runner required j r fs (p, e) =
        subst
          (λ (x : Option SnapshotMetadata).
            Post Never Stuck (recover_journal valid_target runner required x r fs))
          (sym p.journal ∙ e) (recover_open runner required p.state p.uncommitted r fs p)

    -- Where the journal is open and the copy of one of its targets is gone, no recovery ever comes
    -- to its end, whatever happens to its operations, and each leaves the journal open and the
    -- copies as they are. The target was there, and is no schema.
    pub recover-lost :
        (runner required : Bool)
        → Holds Stuck (recover_interrupted_transaction valid_target runner required) Never Stuck
    recover-lost runner required =
        recover-from Stuck Stuck Never valid_target runner required (λ r p. p)
          (λ r p e. cc (p.transaction)) (recover_read runner required)
