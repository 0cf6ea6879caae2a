-- ===== src/Update/Begin.antt =====
-- The snapshot that beginTransaction of internal/update/apply.go takes.
use kelmor.Base.{
  Bool, true, false, ◌≡◌, refl, sym, ap, ◌∙◌, ◌⊎◌, inl, inr, Option, none, some, List, [], All,
  if◌then◌else◌, is_some,
}
use mathlib.Core.Path.{subst₂}
use kelmor.Base.Table.{lookup}
use kelmor.Base.Table.Retain.{retain_all}
use kelmor.Update.Root.{
  File, SnapshotEntry, SnapshotMetadata, Root, Fate, Io, pure, act, look, prune, Entry,
  metadata_file, ◌>>◌,
}
use kelmor.Update.Transaction.{
  Artifact, snapshot_targets, save_release, begin_transaction, finish_snapshot, prepared,
  make_transaction, write_transaction_metadata, set_journal, in_transaction, in_staging,
  remove_transaction,
}
use kelmor.Update.Rules.{
  Post, Post-map, Holds, Holds-bind, Holds-act, Holds-look, Holds-remove_tree,
}
use kelmor.Update.Pending.{Copied, Covered, Snapshot, Pending, Untouched}
use kelmor.Update.Copies.{Begun, Kept, Names, Taken, snapshot_targets-Kept}

module _ (o : Root) where
  -- The snapshot is whole, and nothing has changed but the transaction's directory.
  pub record Prepared (as' : List Artifact) (md : SnapshotMetadata) (r : Root) : Type 0 where
    pub prepared : md.state ≡ "prepared"
    pub snapshot : Snapshot o r.saved r.saved_release md.targets md.current_release_exists
    pub pending : Pending o r.saved r.saved_release md.targets md.current_release_exists r
    pub live : r.live ≡ o.live
    pub release : r.release ≡ o.release
    pub staged : r.staged ≡ o.staged
    pub names : Names o as' md.targets

  abbrev Ready : List Artifact → List SnapshotEntry → Root → Type 0
  Ready as' es r = Begun o r × All (Covered o r.saved) es × Names o as' es

  save_same_release : (m : Option File) → Copied (is_some m) m m
  save_same_release none = refl
  save_same_release (some f) = (f, refl, refl)

  -- The release is copied, if there is one.
  abbrev Whole : List Artifact → List SnapshotEntry → Option File → Root → Type 0
  Whole as' es m r =
      Untouched o r
      × (r.transaction ≡ true)
      × All (Covered o r.saved) es
      × Names o as' es
      × (r.saved_release ≡ m)
      × (m ≡ o.release)

  save_release-Whole :
      (as' : List Artifact) (es : List SnapshotEntry) (m : Option File)
      → Holds
          (λ r. Ready as' es r × (r.release ≡ m))
          (save_release m)
          (λ u. Whole as' es m)
          (Untouched o)
  save_release-Whole as' es none =
      λ r fs p. (p.0.0.0, p.0.0.1, p.0.1, p.0.2, p.0.0.2, sym p.1 ∙ p.0.0.0.release)
  save_release-Whole as' es (some f) =
      Holds-act (λ r. Ready as' es r × (r.release ≡ some f)) (Untouched o)
        (λ u. Whole as' es (some f)) (λ r. record r { saved_release = some f }) (λ r p. p.0.0.0)
        (λ r p. saved_Untouched r f p.0.0.0)
        (λ r p.
          (saved_Untouched r f p.0.0.0, p.0.0.1, p.0.1, p.0.2, refl, sym p.1 ∙ p.0.0.0.release))
    where
      saved_Untouched :
          (r : Root) (f : File) → Untouched o r → Untouched o (record r { saved_release = some f })
      saved_Untouched r f u = record {
        no_journal = u.no_journal;
        live = u.live;
        release = u.release;
        staged = u.staged;
      }

  journal-Prepared :
      (as' : List Artifact) (es : List SnapshotEntry) (m : Option File) (r : Root)
      → Whole as' es m r
      → Prepared as' (prepared es m) (set_journal (prepared es m) r)
  journal-Prepared as' es m r p = record {
    prepared = refl;
    snapshot = record {
      covered = p.2;
      release = subst₂ (Copied (is_some m)) (sym p.4) p.5 (save_same_release m);
    };
    pending = record {
      state = "prepared";
      journal = refl;
      uncommitted = refl;
      transaction = p.1;
      copies = refl;
      release_copy = refl;
      rest = λ k e. ap (lookup k) p.0.live;
    };
    live = p.0.live;
    release = p.0.release;
    staged = p.0.staged;
    names = p.3;
  }

  -- Where beginTransaction stops.
  abbrev pub Stopped : List Artifact → Root → Type 0
  Stopped as' r = Untouched o r ⊎ ((md : SnapshotMetadata) × Prepared as' md r)

  weaken :
      {A : Type 0} (as' : List Artifact) (P : Root → Type 0) (Q : A → Root → Type 0) (m : Io A)
      → Holds P m Q (Untouched o)
      → Holds P m Q (Stopped as')
  weaken as' P Q m h r fs p =
      Post-map Q Q (Untouched o) (Stopped as') (m r fs) (λ a s q. q) (λ s q. inl q) (h r fs p)

  write-Prepared :
      (as' : List Artifact) (es : List SnapshotEntry) (m : Option File)
      → Holds
          (Whole as' es m)
          (write_transaction_metadata (prepared es m) >> pure (prepared es m))
          (Prepared as')
          (Stopped as')
  unfolding write_transaction_metadata
  write-Prepared as' es m =
      Holds-bind (Whole as' es m) (Stopped as') (λ u. Prepared as' (prepared es m)) (Prepared as')
        (act (set_journal (prepared es m))) (λ u. pure (prepared es m))
        (Holds-act (Whole as' es m) (Stopped as') (λ u. Prepared as' (prepared es m))
          (set_journal (prepared es m)) (λ r p. inl p.0)
          (λ r p. inr (prepared es m, journal-Prepared as' es m r p))
          (λ r p. journal-Prepared as' es m r p))
        (λ u r fs p. p)

  finish-Prepared :
      (as' : List Artifact) (es : List SnapshotEntry)
      → Holds (Ready as' es) (finish_snapshot es) (Prepared as') (Stopped as')
  unfolding finish_snapshot
  finish-Prepared as' es =
      Holds-bind (Ready as' es) (Stopped as') (λ m r. Ready as' es r × (r.release ≡ m))
        (Prepared as') (look (λ r. r.release))
        (λ m.
          save_release m >> (write_transaction_metadata (prepared es m) >> pure (prepared es m)))
        (Holds-look (Ready as' es) (Stopped as') (λ m r. Ready as' es r × (r.release ≡ m))
          (λ r. r.release) (λ r p. inl p.0.0) (λ r p. (p, refl)))
        (λ m.
          Holds-bind (λ r. Ready as' es r × (r.release ≡ m)) (Stopped as') (λ u. Whole as' es m)
            (Prepared as') (save_release m)
            (λ u. write_transaction_metadata (prepared es m) >> pure (prepared es m))
            (weaken as' (λ r. Ready as' es r × (r.release ≡ m)) (λ u. Whole as' es m)
              (save_release m) (save_release-Whole as' es m))
            (λ u. write-Prepared as' es m))

  -- What is removed of the transaction's directory is no staged file.
  prune-Untouched :
      (gone : Entry → Bool) (r : Root)
      → Untouched o r
      → Untouched o (prune (λ e. if in_transaction e then gone e else false) r)
  unfolding prune in_transaction in_staging
  prune-Untouched gone r u = record {
    no_journal = rw u.no_journal (none_either (gone metadata_file));
    live = u.live;
    release = u.release;
    staged = retain_all r.staged ∙ u.staged;
  }
    where
      none_either : (b : Bool) → ◌≡◌ {A = Option SnapshotMetadata} (if b then none else none) none
      none_either true = refl
      none_either false = refl

  abbrev Removed : Root → Type 0
  Removed r = Untouched o r × (r.saved_release ≡ none)

  Removed-Untouched :
      (r : Root) → Untouched o r → Removed (record (prune in_transaction r) { transaction = false })
  unfolding prune in_transaction in_staging
  Removed-Untouched r u = (
    record {
      no_journal = refl;
      live = u.live;
      release = u.release;
      staged = retain_all r.staged ∙ u.staged;
    },
    refl,
  )

  marked-Untouched : (r : Root) → Untouched o r → Untouched o (make_transaction r)
  marked-Untouched r u = record {
    no_journal = u.no_journal;
    live = u.live;
    release = u.release;
    staged = u.staged;
  }

  open_directory :
      Holds
        (Untouched o)
        (remove_transaction >> act make_transaction)
        (λ u. Kept o [])
        (Untouched o)
  open_directory =
      Holds-bind (Untouched o) (Untouched o) (λ u. Removed) (λ u. Kept o []) remove_transaction
        (λ u. act make_transaction)
        (Holds-remove_tree (Untouched o) (Untouched o) (λ u. Removed) in_transaction
          (λ r. record r { transaction = false }) (λ r p. p) (λ r g p. prune-Untouched g r p)
          (λ r p. (Removed-Untouched r p).0) (λ r p. Removed-Untouched r p))
        (λ u.
          Holds-act Removed (Untouched o) (λ u. Kept o []) make_transaction (λ r p. p.0)
            (λ r p. marked-Untouched r p.0) (λ r p. ((marked-Untouched r p.0, refl, p.1), tt)))

  -- From a root with no journal: when beginTransaction is done, the journal is open, the old files
  -- and the old release are copied but for the schemas, its entries are those of the artifacts, and
  -- neither a live file nor a staged one nor the release has changed. Where an operation fails or
  -- the process dies, this holds, or there is no journal and nothing of these has changed.
  pub begin_transaction-Prepared :
      (as' : List Artifact) (r : Root) (fs : List Fate)
      → Untouched o r
      → Post (Prepared as') (Stopped as') (begin_transaction as' r fs)
  unfolding begin_transaction
  begin_transaction-Prepared as' =
      Holds-bind (Untouched o) (Stopped as') (Ready as') (Prepared as')
        (remove_transaction >> act make_transaction >> snapshot_targets as') finish_snapshot
        (weaken as' (Untouched o) (Ready as')
          (remove_transaction >> act make_transaction >> snapshot_targets as')
          (Holds-bind (Untouched o) (Untouched o) (λ u. Kept o []) (Ready as')
            (remove_transaction >> act make_transaction) (λ u. snapshot_targets as') open_directory
            (λ u r fs p.
              Post-map (Taken o as' []) (Ready as') (Untouched o) (Untouched o)
                (snapshot_targets as' r fs) (λ es s q. (q.0.0, q.1, q.2)) (λ s q. q)
                (snapshot_targets-Kept o as' [] r fs p))))
        (finish-Prepared as')
