-- ===== src/Update/Rollback.antt =====
-- The two stages of a rollback, before the old files are back and after, and what the cleanup and
-- the commands of internal/update/apply.go do to them.
use kelmor.Base.{
  String, Bool, true, false, not, ◌≡◌, refl, sym, ap, ◌∙◌, ◌⊎◌, inl, inr, Option, none, some, List,
  arith, eq_iff, if◌then◌else◌,
}
use kelmor.Base.Table.{Table, lookup, lookup-insert, lookup-erase}
use kelmor.Base.Table.Retain.{lookup-retain_keys}
use kelmor.Update.Root.{File, SnapshotEntry, Root, Entry, saved_file, metadata_file, prune}
use kelmor.Update.Transaction.{put_live, drop_live, cleanup_transaction}
use kelmor.Update.Rules.{Holds}
use kelmor.Update.Pending.{
  is_named, is_schema, Agrees, Pending, Settled, insert-Pending, erase-Pending, journal-Pending,
  release-Pending,
}
use kelmor.Update.Cleanup.{cleanup-Cleaned}
use kelmor.Update.Trail.{Trail, left}

module _ (o : Root) (saved : Table File) (saved_release : Option File) (ts : List SnapshotEntry)
    (exists : Bool) where
  abbrev pub Open : Root → Type 0
  Open = Pending o saved saved_release ts exists

  abbrev pub Closed : Root → Type 0
  Closed = Settled o saved saved_release ts exists

  left_rest : (r : Root) → Agrees (is_named ts) o r → Agrees (left ts ts) o r
  left_rest r h k e = h k (ground arith)

  left_schema : (r : Root) → Agrees (is_schema ts) o r → Agrees (left ts ts) o r
  left_schema r h k e = h k (ground arith)

  pub Pending-Trail : Trail o saved saved_release ts exists Open
  Pending-Trail = record {
    put = λ r k f n old p. insert-Pending o saved saved_release ts exists r k f n p;
    drop = λ r k n old p. erase-Pending o saved saved_release ts exists r k n p;
    rolling = λ r p. journal-Pending o saved saved_release ts exists r "rolling-back" refl p;
    release = λ r m e p. release-Pending o saved saved_release ts exists r m r.staged p;
    rest = λ r p. left_rest r p.rest;
    copy = λ r k f p e. ap (lookup k) (sym p.copies) ∙ e;
    release_copy = λ r f p e. sym p.release_copy ∙ e;
  }

  put-Settled :
      (r : Root) (k : String) (f : File)
      → lookup k o.live ≡ some f
      → Closed r
      → Closed (put_live k f r)
  put-Settled r k f old p = record {
    journal = p.journal;
    copies = p.copies;
    release_copy = p.release_copy;
    rest = λ j e. ground (arith, lookup-insert k j f r.live, eq_iff k j, p.rest j e, old);
    release = p.release;
  }

  drop-Settled :
      (r : Root) (k : String) → lookup k o.live ≡ none → Closed r → Closed (drop_live k r)
  drop-Settled r k old p = record {
    journal = p.journal;
    copies = p.copies;
    release_copy = p.release_copy;
    rest = λ j e. ground (arith, lookup-erase k j r.live, eq_iff k j, p.rest j e, old);
    release = p.release;
  }

  pub Settled-Trail : Trail o saved saved_release ts exists Closed
  Settled-Trail = record {
    put = λ r k f n old p. put-Settled r k f old p;
    drop = λ r k n old p. drop-Settled r k old p;
    rolling = λ r p. record {
      journal = inr ("rolling-back", refl);
      copies = p.copies;
      release_copy = p.release_copy;
      rest = p.rest;
      release = p.release;
    };
    release = λ r m e p. record {
      journal = p.journal;
      copies = p.copies;
      release_copy = p.release_copy;
      rest = p.rest;
      release = e;
    };
    rest = λ r p. left_schema r p.rest;
    copy = λ r k f p e. p.copies k f e;
    release_copy = λ r f p e. p.release_copy f e;
  }

  pub Pending-Settled :
      (r : Root) → Open r → Agrees (is_schema ts) o r → r.release ≡ o.release → Closed r
  Pending-Settled r p a e = record {
    journal = inr (p.state, p.journal);
    copies = λ k f h. ap (lookup k) (sym p.copies) ∙ h;
    release_copy = λ f h. sym p.release_copy ∙ h;
    rest = a;
    release = e;
  }

  -- Whatever has been removed of the transaction's directory.
  pub prune-Settled : (gone : Entry → Bool) (r : Root) → Closed r → Closed (prune gone r)
  unfolding prune
  prune-Settled gone r p = record {
    journal =
        elim (gone metadata_file)
          as (λ b.
            ((if b then none else r.journal) ≡ none)
            ⊎ ((x : String) × ((if b then none else r.journal)
                  ≡ some (record { state = x; targets = ts; current_release_exists = exists })))) [
                    | true ↦ inl refl
                    | false ↦ p.journal
                  ];
    copies = λ k f h.
        p.copies k f
          (ground (arith, lookup-retain_keys (λ t. not (gone (saved_file t))) k r.saved));
    release_copy = λ f h. p.release_copy f (ground arith);
    rest = p.rest;
    release = p.release;
  }

  pub marker-Settled : (r : Root) → Closed r → Closed (record r { transaction = false })
  marker-Settled r p = record {
    journal = p.journal;
    copies = p.copies;
    release_copy = p.release_copy;
    rest = p.rest;
    release = p.release;
  }

  -- The transaction's directory is gone, and the old files are back.
  abbrev pub Recovered : Root → Type 0
  Recovered r = Closed r × (r.transaction ≡ false)

  pub cleanup-Settled : Holds Closed cleanup_transaction (λ u. Recovered) Closed
  cleanup-Settled = cleanup-Cleaned Closed prune-Settled marker-Settled
