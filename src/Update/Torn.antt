-- ===== src/Update/Torn.antt =====
-- A process that dies in cleanupTransaction of internal/update/apply.go, when removeTree has removed
-- the copy of one target and not yet metadata.json.
use kelmor.Base.{
  String, Bool, true, false, not, ◌≡◌, refl, sym, ap, ◌∙◌, subst, none, List, [], ◌∷◌, ◌==◌, any,
  ◌&&◌, Bool-cases, inl, inr, arith, eq→≡, eq_refl,
}
use kelmor.Base.Table.{Table, lookup, retain}
use kelmor.Base.Table.Retain.{retain_all, lookup-retain_keys}
use kelmor.Update.Root.{
  File, SnapshotEntry, Root, Entry, staged_file, saved_file, release_copy, metadata_file, Fate,
  works, partly, prune, remove_tree, act,
}
use kelmor.Update.Transaction.{
  in_staging, in_transaction, cleanup_transaction, recover_interrupted_transaction,
}
use kelmor.Update.Rules.{Post}
use kelmor.Update.Wedged.{Wedged, is_lost, recover-lost}

abbrev pub only_copy : String → Entry → Bool
only_copy t (staged_file k) = false
only_copy t (saved_file k) = k == t
only_copy t release_copy = false
only_copy t metadata_file = false

-- The staged files go, and then the copy of `t`; there the process dies.
abbrev pub torn : String → List Fate
torn t = works ∷ partly (only_copy t) none ∷ []

abbrev pub without : String → Table File → Table File
without t saved = retain (λ k f. not (k == t)) saved

abbrev pub was_there : String → SnapshotEntry → Bool
was_there t e = e.target == t && (not (e.kind == "schema") && e.exists)

module _ (t : String) (saved : Table File) where
  without-none : lookup t (without t saved) ≡ none
  without-none = lookup-retain_keys (λ k. not (k == t)) t saved ∙ rw (eq_refl t) refl

  lost-cons : (e : SnapshotEntry) → was_there t e ≡ true → is_lost (without t saved) e ≡ true
  lost-cons e h = elim (Bool-cases (e.target == t)) [
    | inr other ↦ cc (other)
    | inl same ↦
        let gone : lookup e.target (without t saved) ≡ none =
          subst (λ k. lookup k (without t saved) ≡ none) (sym (eq→≡ e.target t same))
            without-none in
        rw gone (ground (arith))
  ]

  any_lost :
      (ts : List SnapshotEntry)
      → any (was_there t) ts ≡ true
      → any (is_lost (without t saved)) ts ≡ true
  any_lost [] h = cc
  any_lost (e ∷ ts) h = elim (Bool-cases (was_there t e)) [
    | inl here ↦ rw (lost-cons e here) refl
    | inr miss ↦ ground (arith, any_lost ts (rw miss at h))
  ]

  torn-Wedged :
      (ts : List SnapshotEntry) (exists : Bool) (r : Root)
      → Wedged saved ts exists r
      → Wedged (without t saved) ts exists ((cleanup_transaction r (torn t)).0)
  unfolding cleanup_transaction remove_tree act prune in_transaction in_staging
  torn-Wedged ts exists r p = record {
    state = p.state;
    journal = p.journal;
    uncommitted = p.uncommitted;
    transaction = p.transaction;
    copies = ap (without t) (retain_all r.saved ∙ p.copies);
  }

-- A process that dies in the cleanup after a rollback, when the copy of one target is removed and
-- the journal is not, leaves a root whose every later recovery fails, or dies, and leaves it so:
-- the journal stays open and the copy gone. The target was there when the snapshot was taken, and is
-- no schema; the journal is open and in some state other than "committed".
pub recover-torn :
    (t : String) (saved : Table File) (ts : List SnapshotEntry) (exists : Bool)
    (valid_target : String → Bool) (runner required : Bool) (r : Root) (fs : List Fate)
    → any (was_there t) ts ≡ true
    → Wedged saved ts exists r
    → Post
        (λ u s. ⊥)
        (Wedged (without t saved) ts exists)
        (recover_interrupted_transaction valid_target runner required
          ((cleanup_transaction r (torn t)).0)
          fs)
recover-torn t saved ts exists valid_target runner required r fs there p =
    recover-lost valid_target (without t saved) ts exists (any_lost t saved ts there) runner
      required ((cleanup_transaction r (torn t)).0) fs (torn-Wedged t saved ts exists r p)
