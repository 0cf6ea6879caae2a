-- ===== src/Update/Copies.antt =====
-- The copies of the targets that beginTransaction of internal/update/apply.go makes.
use kelmor.Base.{
  String, Bool, true, false, ◌&&◌, ◌≡◌, refl, sym, ap, ◌∙◌, subst, inl, inr, Option, none, some,
  List, [], ◌∷◌, ◌==◌, All, any, Bool-cases, if◌then◌else◌, eq→≡, eq_refl,
}
use kelmor.Base.Table.{Table, lookup, insert, lookup-insert}
use kelmor.Update.Root.{File, SnapshotEntry, Root, pure, act, look, ◌>>=◌, ◌>>◌}
use kelmor.Update.Transaction.{
  Artifact, kind_of_artifact, copy_target, snapshot_target, snapshot_targets, save_file,
}
use kelmor.Update.Rules.{Post-map, Holds, Holds-bind, Holds-act, Holds-look}
use kelmor.Update.Pending.{is_named, is_schema, Copied, CoveredBy, Covered, Untouched}

abbrev pub is_target : List Artifact → String → Bool
is_target as' k = any (λ a. a.target == k) as'

abbrev pub schema_target : List Artifact → String → Bool
schema_target as' k = any (λ a. a.target == k && kind_of_artifact a == "schema") as'

module _ (o : Root) where
  -- The directory is there, and the live files are as they were.
  abbrev pub Begun : Root → Type 0
  Begun r = Untouched o r × (r.transaction ≡ true) × (r.saved_release ≡ none)

  Copied-some :
      (e : Bool) (c old : Option File) (f : File)
      → old ≡ some f
      → Copied e c old
      → Copied e (some f) old
  Copied-some true c old f h k = (f, refl, h)
  Copied-some false c old f h k = k

  -- Another copy leaves what is covered so.
  Covered-insert :
      (k : String) (f : File) (saved : Table File) (e : SnapshotEntry)
      → lookup k o.live ≡ some f
      → Covered o saved e
      → Covered o (insert k f saved) e
  Covered-insert k f saved e old c =
      rw (lookup-insert k e.target f saved) (elim (Bool-cases (e.kind == "schema")) [
        | inl schema ↦ rw schema tt
        | inr runtime ↦ rw runtime (elim (Bool-cases (k == e.target)) [
          | inl hit ↦ rw hit (
              Copied-some e.exists (lookup e.target saved) _ f
                (subst (λ t. lookup t o.live ≡ some f) (eq→≡ k e.target hit) old) (rw runtime at c))
          | inr miss ↦ rw miss (rw runtime at c)
        ])
      ])

  All-Covered-insert :
      (k : String) (f : File) (saved : Table File) (es : List SnapshotEntry)
      → lookup k o.live ≡ some f
      → All (Covered o saved) es
      → All (Covered o (insert k f saved)) es
  All-Covered-insert k f saved [] old all = tt
  All-Covered-insert k f saved (e ∷ es) old all =
      (Covered-insert k f saved e old all.0, All-Covered-insert k f saved es old all.1)

  save-Untouched :
      (k : String) (f : File) (r : Root) → Untouched o r → Untouched o (save_file k f r)
  save-Untouched k f r u = record {
    no_journal = u.no_journal;
    live = u.live;
    release = u.release;
    staged = u.staged;
  }

  abbrev pub Kept : List SnapshotEntry → Root → Type 0
  Kept es r = Begun r × All (Covered o r.saved) es

  -- The entry is that of the artifact.
  abbrev After : Artifact → List SnapshotEntry → SnapshotEntry → Root → Type 0
  After a pre e r = Kept (e ∷ pre) r × (e.target ≡ a.target) × (e.kind ≡ kind_of_artifact a)

  take_copy :
      (a : Artifact) (pre : List SnapshotEntry) (b : Bool) (f : File)
      → (kind_of_artifact a == "schema") ≡ b
      → Holds
          (λ r. Kept pre r × (lookup a.target r.live ≡ some f))
          (if b
            then pure (record { target = a.target; exists = true; kind = kind_of_artifact a })
            else (act (save_file a.target f)
                >> pure (record { target = a.target; exists = true; kind = kind_of_artifact a })))
          (After a pre)
          (Untouched o)
  take_copy a pre true f e = λ r fs p. ((p.0.0, (rw e tt, p.0.1)), refl, refl)
  take_copy a pre false f e =
      Holds-bind (λ r. Kept pre r × (lookup a.target r.live ≡ some f)) (Untouched o)
        (λ u. After a pre (record { target = a.target; exists = true; kind = kind_of_artifact a }))
        (After a pre) (act (save_file a.target f))
        (λ u. pure (record { target = a.target; exists = true; kind = kind_of_artifact a }))
        (Holds-act (λ r. Kept pre r × (lookup a.target r.live ≡ some f)) (Untouched o)
          (λ u.
            After a pre (record { target = a.target; exists = true; kind = kind_of_artifact a }))
          (save_file a.target f) (λ r p. p.0.0.0) (λ r p. save-Untouched a.target f r p.0.0.0)
          (λ r p.
            (let old : lookup a.target o.live ≡ some f =
                ap (lookup a.target) (sym p.0.0.0.live) ∙ p.1 in
              (
                (
                  (save-Untouched a.target f r p.0.0.0, p.0.0.1, p.0.0.2),
                  (
                    rw (e, lookup-insert a.target a.target f r.saved, eq_refl a.target)
                        (f, refl, old),
                    All-Covered-insert a.target f r.saved pre old p.0.1,
                  ),
                ),
                refl,
                refl,
              ))))
        (λ u r fs p. p)

  Copied-absent :
      (b : Bool) (c : Option File) (old : Option File) → old ≡ none → CoveredBy b false c old
  Copied-absent true c old h = tt
  Copied-absent false c old h = h

  copy_target-Kept :
      (a : Artifact) (pre : List SnapshotEntry) (x : Option File)
      → Holds
          (λ r. Kept pre r × (lookup a.target r.live ≡ x))
          (copy_target a x)
          (After a pre)
          (Untouched o)
  copy_target-Kept a pre none = λ r fs p. (
    (
      p.0.0,
      (
        Copied-absent (kind_of_artifact a == "schema") _ (lookup a.target o.live)
            (ap (lookup a.target) (sym p.0.0.0.live) ∙ p.1),
        p.0.1,
      ),
    ),
    refl,
    refl,
  )
  copy_target-Kept a pre (some f) = take_copy a pre (kind_of_artifact a == "schema") f refl

  snapshot_target-Kept :
      (a : Artifact) (pre : List SnapshotEntry)
      → Holds (Kept pre) (snapshot_target a) (After a pre) (Untouched o)
  unfolding snapshot_target
  snapshot_target-Kept a pre =
      Holds-bind (Kept pre) (Untouched o) (λ x r. Kept pre r × (lookup a.target r.live ≡ x))
        (After a pre) (look (λ r. lookup a.target r.live)) (copy_target a)
        (Holds-look (Kept pre) (Untouched o) (λ x r. Kept pre r × (lookup a.target r.live ≡ x))
          (λ r. lookup a.target r.live) (λ r p. p.0.0) (λ r p. (p, refl)))
        (copy_target-Kept a pre)

  -- The entries are those of the artifacts.
  abbrev pub Names : List Artifact → List SnapshotEntry → Type 0
  Names as' es =
      (k : String) → (is_named es k ≡ is_target as' k) × (is_schema es k ≡ schema_target as' k)

  abbrev pub Taken : List Artifact → List SnapshotEntry → List SnapshotEntry → Root → Type 0
  Taken as' pre es r = Kept pre r × All (Covered o r.saved) es × Names as' es

  pub snapshot_targets-Kept :
      (as' : List Artifact) (pre : List SnapshotEntry)
      → Holds (Kept pre) (snapshot_targets as') (Taken as' pre) (Untouched o)
  unfolding snapshot_targets
  snapshot_targets-Kept [] pre = λ r fs p. (p, tt, λ k. (refl, refl))
  snapshot_targets-Kept (a ∷ as') pre =
      Holds-bind (Kept pre) (Untouched o) (After a pre) (Taken (a ∷ as') pre) (snapshot_target a)
        (λ e. snapshot_targets as' >>= λ es. pure (e ∷ es)) (snapshot_target-Kept a pre)
        (λ e.
          Holds-bind (After a pre e) (Untouched o)
            (λ es r.
              Taken as' (e ∷ pre) es r × (e.target ≡ a.target) × (e.kind ≡ kind_of_artifact a))
            (Taken (a ∷ as') pre) (snapshot_targets as') (λ es. pure (e ∷ es))
            (λ r fs p.
              Post-map (Taken as' (e ∷ pre))
                (λ es r.
                  Taken as' (e ∷ pre) es r × (e.target ≡ a.target) × (e.kind ≡ kind_of_artifact a))
                (Untouched o) (Untouched o) (snapshot_targets as' r fs) (λ es s q. (q, p.1, p.2))
                (λ s q. q) (snapshot_targets-Kept as' (e ∷ pre) r fs p.0))
            (λ es r fs p. (
              (p.0.0.0, p.0.0.1.1),
              (p.0.0.1.0, p.0.1),
              λ k. (rw (p.1, (p.0.2 k).0), rw (p.1, p.2, (p.0.2 k).1)),
            )))
