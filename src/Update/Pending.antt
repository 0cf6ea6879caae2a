-- ===== src/Update/Pending.antt =====
-- A transaction that is under way, as the files of the install root show it: internal/update/apply.go.
use kelmor.Base.{
  String, Bool, true, false, ◌&&◌, ◌≡◌, refl, ◌⊎◌, Option, none, some, List, ◌==◌, any, All, arith,
  eq_iff,
}
use kelmor.Base.Table.{Table, lookup, insert, erase, lookup-insert, lookup-erase}
use kelmor.Update.Root.{File, SnapshotEntry, Root}

abbrev pub is_named : List SnapshotEntry → String → Bool
is_named ts k = any (λ e. e.target == k) ts

abbrev pub is_schema : List SnapshotEntry → String → Bool
is_schema ts k = any (λ e. e.target == k && e.kind == "schema") ts

-- The live files are those of `o`, but for some keys.
abbrev pub Agrees : (String → Bool) → Root → Root → Type 0
Agrees changed o r = (k : String) → changed k ≡ false → lookup k r.live ≡ lookup k o.live

-- The copy of a file and the file, by whether it was there.
abbrev pub Copied : Bool → Option File → Option File → Type 0
Copied true copy old = (f : File) × (copy ≡ some f) × (old ≡ some f)
Copied false copy old = old ≡ none

abbrev pub CoveredBy : Bool → Bool → Option File → Option File → Type 0
CoveredBy true exists copy old = Unit {0}
CoveredBy false exists copy old = Copied exists copy old

abbrev pub Covered : Root → Table File → SnapshotEntry → Type 0
Covered o saved e =
    CoveredBy (e.kind == "schema") e.exists (lookup e.target saved) (lookup e.target o.live)

-- The entries of the journal and the copies are those of the root `o`.
pub record Snapshot (o : Root) (saved : Table File) (saved_release : Option File)
    (ts : List SnapshotEntry) (exists : Bool) : Type 0 where
  pub covered : All (Covered o saved) ts
  pub release : Copied exists saved_release o.release

-- The journal is open, the copies are there, and only the targets may have changed.
pub record Pending (o : Root) (saved : Table File) (saved_release : Option File)
    (ts : List SnapshotEntry) (exists : Bool) (r : Root) : Type 0 where
  pub state : String
  pub journal :
      r.journal ≡ some (record { state = state; targets = ts; current_release_exists = exists })
  pub uncommitted : (state == "committed") ≡ false
  pub transaction : r.transaction ≡ true
  pub copies : r.saved ≡ saved
  pub release_copy : r.saved_release ≡ saved_release
  pub rest : Agrees (is_named ts) o r

-- No journal, and nothing has changed.
pub record Untouched (o r : Root) : Type 0 where
  pub no_journal : r.journal ≡ none
  pub live : r.live ≡ o.live
  pub release : r.release ≡ o.release
  pub staged : r.staged ≡ o.staged

module _ (o : Root) (saved : Table File) (saved_release : Option File) (ts : List SnapshotEntry)
    (exists : Bool) where
  abbrev Open : Root → Type 0
  Open r = Pending o saved saved_release ts exists r

  -- Writes to targets keep it so.
  pub insert-Pending :
      (r : Root) (k : String) (f : File)
      → is_named ts k ≡ true
      → Open r
      → Open (record r { live = insert k f r.live })
  insert-Pending r k f n p = record {
    state = p.state;
    journal = p.journal;
    uncommitted = p.uncommitted;
    transaction = p.transaction;
    copies = p.copies;
    release_copy = p.release_copy;
    rest = λ j e. ground (arith, lookup-insert k j f r.live, eq_iff k j, p.rest j e);
  }

  pub erase-Pending :
      (r : Root) (k : String)
      → is_named ts k ≡ true
      → Open r
      → Open (record r { live = erase k r.live })
  erase-Pending r k n p = record {
    state = p.state;
    journal = p.journal;
    uncommitted = p.uncommitted;
    transaction = p.transaction;
    copies = p.copies;
    release_copy = p.release_copy;
    rest = λ j e. ground (arith, lookup-erase k j r.live, eq_iff k j, p.rest j e);
  }

  -- So do a new state of the journal, and writes to the staged files and to the marker.
  pub journal-Pending :
      (r : Root) (s : String)
      → (s == "committed") ≡ false
      → Open r
      → Open (record r {
        journal = some (record { state = s; targets = ts; current_release_exists = exists });
      })
  journal-Pending r s u p = record {
    state = s;
    journal = refl;
    uncommitted = u;
    transaction = p.transaction;
    copies = p.copies;
    release_copy = p.release_copy;
    rest = p.rest;
  }

  pub release-Pending :
      (r : Root) (m : Option File) (st : Table File)
      → Open r
      → Open (record r { release = m; staged = st })
  release-Pending r m st p = record {
    state = p.state;
    journal = p.journal;
    uncommitted = p.uncommitted;
    transaction = p.transaction;
    copies = p.copies;
    release_copy = p.release_copy;
    rest = p.rest;
  }

-- The old files are back; of the transaction's directory, some entries may be gone already.
pub record Settled (o : Root) (saved : Table File) (saved_release : Option File)
    (ts : List SnapshotEntry) (exists : Bool) (r : Root) : Type 0 where
  pub journal :
      (r.journal ≡ none)
      ⊎ ((state : String) × (r.journal
            ≡ some (record { state = state; targets = ts; current_release_exists = exists })))
  pub copies : (k : String) (f : File) → lookup k r.saved ≡ some f → lookup k saved ≡ some f
  pub release_copy : (f : File) → r.saved_release ≡ some f → saved_release ≡ some f
  pub rest : Agrees (is_schema ts) o r
  pub release : r.release ≡ o.release
