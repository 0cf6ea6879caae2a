-- ===== src/Update/Trail.antt =====
-- What the rollback of internal/update/apply.go keeps, for any property of the root that its writes
-- of old files keep.
use kelmor.Base.{
  String, Bool, true, false, ◌≡◌, refl, sym, ◌∙◌, inl, inr, Option, none, some, List, [], ◌∷◌, ◌==◌,
  All, arith, eq_iff, Bool-cases, if◌then◌else◌,
}
use kelmor.Base.Table.{Table, lookup, lookup-insert, lookup-erase}
use kelmor.Update.Root.{File, SnapshotEntry, Root, Io, act, look, ◌>>=◌, ◌>>◌}
use kelmor.Update.Transaction.{
  found, restore_target, restore_targets, restore_release, rollback_transaction_with_metadata,
  put_live, drop_live, set_journal, write_transaction_metadata,
}
use kelmor.Update.Rules.{Post-map, Holds, Holds-bind, Holds-act, Holds-look}
use kelmor.Update.Pending.{is_named, is_schema, Agrees, Copied, CoveredBy, Covered}

-- What may still differ from `o` when `es` are left to restore.
abbrev pub left : List SnapshotEntry → List SnapshotEntry → String → Bool
left ts es k = if is_named es k then true else is_schema ts k

-- The property `J` of the roots on the way back to `o`, whose files were copied to `saved`.
pub record Trail (o : Root) (saved : Table File) (saved_release : Option File)
    (ts : List SnapshotEntry) (exists : Bool) (J : Root → Type 0) : Type 0 where
  pub put :
      (r : Root) (k : String) (f : File)
      → is_named ts k ≡ true
      → lookup k o.live ≡ some f
      → J r
      → J (put_live k f r)
  pub drop :
      (r : Root) (k : String)
      → is_named ts k ≡ true
      → lookup k o.live ≡ none
      → J r
      → J (drop_live k r)
  pub rolling :
      (r : Root)
      → J r
      → J (
          set_journal
            (record { state = "rolling-back"; targets = ts; current_release_exists = exists })
            r)
  pub release : (r : Root) (m : Option File) → m ≡ o.release → J r → J (record r { release = m })
  pub rest : (r : Root) → J r → Agrees (left ts ts) o r
  pub copy :
      (r : Root) (k : String) (f : File) → J r → lookup k r.saved ≡ some f → lookup k saved ≡ some f
  pub release_copy : (r : Root) (f : File) → J r → r.saved_release ≡ some f → saved_release ≡ some f

-- An entry of the journal `ts`.
abbrev pub Noted : Root → Table File → List SnapshotEntry → SnapshotEntry → Type 0
Noted o saved ts e =
    (is_named ts e.target ≡ true)
    × ((e.kind == "schema") ≡ true → is_schema ts e.target ≡ true)
    × Covered o saved e

pub fetch-Holds :
    (P I : Root → Type 0) (R : File → Type 0) (g : Root → Option File)
    → ((r : Root) → P r → I r)
    → ((r : Root) (f : File) → P r → g r ≡ some f → R f)
    → Holds P (look g >>= found) (λ f r. P r × R f) I
fetch-Holds P I R g i h =
    Holds-bind P I (λ x r. P r × (g r ≡ x)) (λ f r. P r × R f) (look g) found
      (Holds-look P I (λ x r. P r × (g r ≡ x)) g i (λ r p. (p, refl))) (found-Holds P I R g i h)
  where
    found-Holds :
        (P I : Root → Type 0) (R : File → Type 0) (g : Root → Option File)
        → ((r : Root) → P r → I r)
        → ((r : Root) (f : File) → P r → g r ≡ some f → R f)
        → (x : Option File) → Holds (λ r. P r × (g r ≡ x)) (found x) (λ f r. P r × R f) I
    found-Holds P I R g i h none r fs p = i r p.0
    found-Holds P I R g i h (some f) r fs p = (p.0, h r f p.0 p.1)

Copied-old :
    (e : Bool) (c old : Option File) (f : File)
    → e ≡ true
    → Copied e c old
    → c ≡ some f
    → old ≡ some f
Copied-old true c old f h k q = k.2 ∙ sym k.1 ∙ q
Copied-old false c old f h k q = cc

absent-old : (e : Bool) (c old : Option File) → e ≡ false → Copied e c old → old ≡ none
absent-old true c old h k = cc
absent-old false c old h k = k

pub runtime-Copied :
    (s e : Bool) (c old : Option File) → s ≡ false → CoveredBy s e c old → Copied e c old
runtime-Copied true e c old h k = cc
runtime-Copied false e c old h k = k

module _ (valid_target : String → Bool) (o : Root) (saved : Table File)
    (saved_release : Option File) (ts : List SnapshotEntry) (exists : Bool) (J : Root → Type 0)
    (trail : Trail o saved saved_release ts exists J) where
  abbrev pub Left : List SnapshotEntry → Root → Type 0
  Left es r = J r × Agrees (left ts es) o r

  -- A write of the entry's old file settles it.
  drop_Left :
      (e : SnapshotEntry) (es : List SnapshotEntry)
      → lookup e.target o.live ≡ none
      → is_named ts e.target ≡ true
      → Holds (Left (e ∷ es)) (act (drop_live e.target)) (λ u. Left es) J
  drop_Left e es old n =
      Holds-act (Left (e ∷ es)) J (λ u. Left es) (drop_live e.target) (λ r p. p.0)
        (λ r p. trail.drop r e.target n old p.0)
        (λ r p. (
          trail.drop r e.target n old p.0,
          λ k h. ground (arith, lookup-erase e.target k r.live, eq_iff e.target k, p.1 k, old),
        ))

  put_Left :
      (e : SnapshotEntry) (es : List SnapshotEntry) (f : File)
      → is_named ts e.target ≡ true
      → Holds
          (λ r. Left (e ∷ es) r × (lookup e.target o.live ≡ some f))
          (act (put_live e.target f))
          (λ u. Left es)
          J
  put_Left e es f n =
      Holds-act (λ r. Left (e ∷ es) r × (lookup e.target o.live ≡ some f)) J (λ u. Left es)
        (put_live e.target f) (λ r p. p.0.0) (λ r p. trail.put r e.target f n p.1 p.0.0)
        (λ r p. (
          trail.put r e.target f n p.1 p.0.0,
          λ k h. ground (arith, lookup-insert e.target k f r.live, eq_iff e.target k, p.0.1 k, p.1),
        ))

  pub restore_target-Trail :
      (e : SnapshotEntry) (es : List SnapshotEntry)
      → Noted o saved ts e
      → Holds (Left (e ∷ es)) (restore_target valid_target e) (λ u. Left es) J
  unfolding restore_target
  restore_target-Trail e es n = elim (Bool-cases (valid_target e.target)) [
    | inr bad ↦ rw bad (λ r fs p. p.0)
    | inl ok ↦ rw ok (elim (Bool-cases (e.kind == "schema")) [
      | inl schema ↦
          rw schema (λ r fs p. (p.0, λ k h. p.1 k (ground (arith, n.1 schema, eq_iff e.target k))))
      | inr runtime ↦ rw runtime (elim (Bool-cases e.exists) [
        | inr gone ↦ rw gone (
            drop_Left e es
              (absent-old e.exists _ _ gone (runtime-Copied _ e.exists _ _ runtime n.2)) n.0)
        | inl there ↦ rw there (
            Holds-bind (Left (e ∷ es)) J
              (λ f r. Left (e ∷ es) r × (lookup e.target o.live ≡ some f)) (λ u. Left es)
              (look (λ r. lookup e.target r.saved) >>= found) (λ f. act (put_live e.target f))
              (fetch-Holds (Left (e ∷ es)) J (λ f. lookup e.target o.live ≡ some f)
                (λ r. lookup e.target r.saved) (λ r p. p.0)
                (λ r f p q.
                  Copied-old e.exists _ _ f there (runtime-Copied _ e.exists _ _ runtime n.2)
                    (trail.copy r e.target f p.0 q)))
              (λ f. put_Left e es f n.0))
      ])
    ])
  ]

  pub restore_targets-Trail :
      (es : List SnapshotEntry)
      → All (Noted o saved ts) es
      → Holds (Left es) (restore_targets valid_target es) (λ u. Left []) J
  unfolding restore_targets
  restore_targets-Trail [] all = λ r fs p. p
  restore_targets-Trail (e ∷ es) all =
      Holds-bind (Left (e ∷ es)) J (λ u. Left es) (λ u. Left []) (restore_target valid_target e)
        (λ u. restore_targets valid_target es) (restore_target-Trail e es all.0)
        (λ u. restore_targets-Trail es all.1)

  -- The files are back: those that are no schema, and the release.
  abbrev pub Back : Root → Type 0
  Back r = J r × Agrees (is_schema ts) o r × (r.release ≡ o.release)

  pub restore_release-Trail :
      (b : Bool)
      → Copied b saved_release o.release
      → Holds (Left []) (restore_release b) (λ u. Back) J
  unfolding restore_release
  restore_release-Trail true c =
      Holds-bind (Left []) J (λ f r. Left [] r × (o.release ≡ some f)) (λ u. Back)
        (look (λ r. r.saved_release) >>= found) (λ f. act (λ r. record r { release = some f }))
        (fetch-Holds (Left []) J (λ f. o.release ≡ some f) (λ r. r.saved_release) (λ r p. p.0)
          (λ r f p q. c.2 ∙ sym c.1 ∙ trail.release_copy r f p.0 q))
        (λ f.
          Holds-act (λ r. Left [] r × (o.release ≡ some f)) J (λ u. Back)
            (λ r. record r { release = some f }) (λ r p. p.0.0)
            (λ r p. trail.release r (some f) (sym p.1) p.0.0)
            (λ r p. (trail.release r (some f) (sym p.1) p.0.0, p.0.1, sym p.1)))
  restore_release-Trail false c =
      Holds-act (Left []) J (λ u. Back) (λ r. record r { release = none }) (λ r p. p.0)
        (λ r p. trail.release r none (sym c) p.0)
        (λ r p. (trail.release r none (sym c) p.0, p.1, sym c))

  -- From the journal's "rolling-back" on, whatever the journal said before.
  pub rollback-from :
      (P I : Root → Type 0) (state : String)
      → ((r : Root)
          → P r
          → J (
              set_journal
                (record { state = "rolling-back"; targets = ts; current_release_exists = exists })
                r))
      → ((r : Root) → P r → I r)
      → ((r : Root) → J r → I r)
      → All (Noted o saved ts) ts
      → Copied exists saved_release o.release
      → Holds P
          (rollback_transaction_with_metadata valid_target
            (record { state = state; targets = ts; current_release_exists = exists }))
          (λ u. Back)
          I
  unfolding rollback_transaction_with_metadata write_transaction_metadata
  rollback-from P I state enter weak_p weak_j all c =
      Holds-bind P I (λ u. Left []) (λ u. Back)
        (write_transaction_metadata
            (record { state = "rolling-back"; targets = ts; current_release_exists = exists })
          >> restore_targets valid_target ts)
        (λ u. restore_release exists)
        (Holds-bind P I (λ u. Left ts) (λ u. Left [])
          (write_transaction_metadata
            (record { state = "rolling-back"; targets = ts; current_release_exists = exists }))
          (λ u. restore_targets valid_target ts)
          (Holds-act P I (λ u. Left ts)
            (set_journal
              (record { state = "rolling-back"; targets = ts; current_release_exists = exists }))
            weak_p (λ r p. weak_j _ (enter r p)) (λ r p. (enter r p, trail.rest _ (enter r p))))
          (λ u.
            lift (Left ts) (λ v. Left []) (restore_targets valid_target ts)
              (restore_targets-Trail ts all)))
        (λ u. lift (Left []) (λ v. Back) (restore_release exists) (restore_release-Trail exists c))
    where
      lift :
          (P' : Root → Type 0) (Q : Unit {0} → Root → Type 0) (m : Io (Unit {0}))
          → Holds P' m Q J
          → Holds P' m Q I
      lift P' Q m h r fs p = Post-map Q Q J I (m r fs) (λ a s q. q) weak_j (h r fs p)
