-- ===== src/Update/Root.antt =====
-- The install root of an update: the files that internal/update/apply.go touches through
-- internal/update/securefs.go and internal/filesystem/root.go, grouped by their directory, and
-- what can happen to each file operation.
use kelmor.Base.{ℕ, String, Bool, false, not, Option, none, some, List, [], ◌∷◌, if◌then◌else◌}
use kelmor.Base.Table.{Table, retain}

pub record File : Type 0 where
  pub content : String
  pub mode : ℕ

pub record SnapshotEntry : Type 0 where
  pub target : String
  pub exists : Bool
  pub kind : String

-- metadata.json, as what JSON makes of it.
pub record SnapshotMetadata : Type 0 where
  pub state : String
  pub targets : List SnapshotEntry
  pub current_release_exists : Bool

-- `live` has the targets by their path, `staged` the files below .update-staging, `saved` those below
-- .update-transaction/targets.
pub record Root : Type 0 where
  pub live : Table File
  pub release : Option File
  pub staged : Table File
  pub transaction : Bool
  pub saved : Table File
  pub saved_release : Option File
  pub journal : Option SnapshotMetadata

-- What removeTree meets in the two directories.
pub data Entry : Type 0 where
  staged_file : String → Entry
  saved_file : String → Entry
  release_copy : Entry
  metadata_file : Entry

-- What happens to an operation: it works; it fails before its effect, or after it (where the
-- directory cannot be synced); the process dies before it. A removal of a tree may also fail or die
-- when it has removed some of the entries.
pub data Fate : Type 0 where
  works : Fate
  fails : String → Fate
  fails_late : String → Fate
  dies : Fate
  partly : (Entry → Bool) → Option String → Fate

pub data Outcome (A : Type 0) : Type 0 where
  done : A → Outcome A
  failed : String → Outcome A
  crashed : Outcome A

-- A program over the root, against the fates of its operations; past their end all works.
abbrev pub Io : Type 0 → Type 0
Io A = Root → List Fate → Root × List Fate × Outcome A

abbrev pub resume :
    {A B : Type 0} → Root × List Fate × Outcome A → (A → Io B) → Root × List Fate × Outcome B
resume (r, fs, done a) k = k a r fs
resume (r, fs, failed e) k = (r, fs, failed e)
resume (r, fs, crashed) k = (r, fs, crashed)

infixl 5 ◌>>=◌ ◌>>◌
abbrev pub ◌>>=◌ : {A B : Type 0} → Io A → (A → Io B) → Io B
◌>>=◌ m k r fs = resume (m r fs) k

abbrev pub ◌>>◌ : {B : Type 0} → Io (Unit {0}) → Io B → Io B
m >> k = m >>= λ _. k

abbrev pub pure : {A : Type 0} → A → Io A
pure a r fs = (r, fs, done a)

abbrev pub fail : {A : Type 0} → String → Io A
fail e r fs = (r, fs, failed e)

-- if err := m; err != nil { handle }
abbrev pub caught :
    {A : Type 0} → Root × List Fate × Outcome A → (String → Io A) → Root × List Fate × Outcome A
caught (r, fs, done a) h = (r, fs, done a)
caught (r, fs, failed e) h = h e r fs
caught (r, fs, crashed) h = (r, fs, crashed)

abbrev pub or_else : {A : Type 0} → Io A → (String → Io A) → Io A
or_else m h r fs = caught (m r fs) h

-- An operation with the effect `f`.
unfoldable pub act : (Root → Root) → Io (Unit {0})
act f r [] = (f r, [], done tt)
act f r (works ∷ fs) = (f r, fs, done tt)
act f r (fails e ∷ fs) = (r, fs, failed e)
act f r (fails_late e ∷ fs) = (f r, fs, failed e)
act f r (dies ∷ fs) = (r, fs, crashed)
act f r (partly p none ∷ fs) = (r, fs, crashed)
act f r (partly p (some e) ∷ fs) = (r, fs, failed e)

-- An operation that only reads, or runs a command.
abbrev pub look : {A : Type 0} → (Root → A) → Io A
look g = act (λ r. r) >> λ r fs. (r, fs, done (g r))

-- The entries of a tree that are left.
unfoldable pub prune : (Entry → Bool) → Root → Root
prune gone r = record r {
  staged = retain (λ t f. not (gone (staged_file t))) r.staged;
  saved = retain (λ t f. not (gone (saved_file t))) r.saved;
  saved_release = if gone release_copy then none else r.saved_release;
  journal = if gone metadata_file then none else r.journal;
}

-- removeTree of a directory with the entries `within`; `last` removes the directory itself.
unfoldable pub remove_tree : (Entry → Bool) → (Root → Root) → Io (Unit {0})
remove_tree within last r (partly p none ∷ fs) =
    (prune (λ e. if within e then p e else false) r, fs, crashed)
remove_tree within last r (partly p (some e) ∷ fs) =
    (prune (λ e. if within e then p e else false) r, fs, failed e)
remove_tree within last r fs = act (λ s. last (prune within s)) r fs
