-- ===== src/Update/Safe.antt =====
-- What an installation may leave behind at any moment, for recoverInterruptedTransaction of
-- internal/update/apply.go to find.
use kelmor.Base.{
  String, Bool, true, ◌≡◌, refl, ◌⊎◌, inl, inr, Option, none, some, List, [], ◌∷◌, ◌==◌, All, arith,
  eq_refl,
}
use kelmor.Base.Table.{Table}
use kelmor.Update.Root.{
  File, SnapshotEntry, SnapshotMetadata, Root, Io, Fate, Outcome, done, failed, crashed, caught,
  resume, pure,
}
use kelmor.Update.Transaction.{Artifact}
use kelmor.Update.Install.{try}
use kelmor.Update.Rules.{Post, Either, Holds}
use kelmor.Update.Pending.{Covered, Snapshot, Pending, Settled}
use kelmor.Update.Copies.{Names}
use kelmor.Update.Trail.{Noted}
use kelmor.Update.Fresh.{Fresh}

Noted-cons :
    (o : Root) (saved : Table File) (ts : List SnapshotEntry) (x : SnapshotEntry)
    (es : List SnapshotEntry)
    → All (Noted o saved ts) es
    → All (Noted o saved (x ∷ ts)) es
Noted-cons o saved ts x [] all = tt
Noted-cons o saved ts x (e ∷ es) all =
    ((ground (arith), λ h. ground (arith, all.0.1 h), all.0.2), Noted-cons o saved ts x es all.1)

pub All-Noted :
    (o : Root) (saved : Table File) (ts : List SnapshotEntry)
    → All (Covered o saved) ts
    → All (Noted o saved ts) ts
All-Noted o saved [] all = tt
All-Noted o saved (e ∷ ts) all = (
  (rw (eq_refl e.target) refl, λ h. rw (eq_refl e.target, h) refl, all.0),
  Noted-cons o saved ts e ts (All-Noted o saved ts all.1),
)

-- Recovery leaves the new release alone.
abbrev pub Sealed : Root → Type 0
Sealed r =
    (r.journal ≡ none)
    ⊎ ((md : SnapshotMetadata) × (r.journal ≡ some md) × ((md.state == "committed") ≡ true))

abbrev pub New : Root → List Artifact → String → Root → Type 0
New o as' name r = Fresh o as' name r × Sealed r

-- The files of `o`, with no journal to recover from.
abbrev pub Unharmed : Root → Root → Type 0
Unharmed o r = (r.journal ≡ none) × (r.live ≡ o.live) × (r.release ≡ o.release)

pub data Safe (o : Root) (as' : List Artifact) (name : String) (r : Root) : Type 0 where
  unharmed : Unharmed o r → Safe o as' name r
  underway :
      (saved : Table File) (saved_release : Option File) (ts : List SnapshotEntry) (exists : Bool)
      → Snapshot o saved saved_release ts exists
      → Names o as' ts
      → Pending o saved saved_release ts exists r
      → Safe o as' name r
  settled :
      (saved : Table File) (saved_release : Option File) (ts : List SnapshotEntry) (exists : Bool)
      → Snapshot o saved saved_release ts exists
      → Names o as' ts
      → Settled o saved saved_release ts exists r
      → Safe o as' name r
  complete : New o as' name r → Safe o as' name r

try-Post :
    {A : Type 0} (I : Root → Type 0) (Q : A → Root → Type 0) (x : Root × List Fate × Outcome A)
    → Post Q I x
    → Post (Either Q I) I (caught (resume x (λ a. pure (inl a))) (λ e. pure (inr e)))
try-Post I Q (r, fs, done a) h = h
try-Post I Q (r, fs, failed e) h = h
try-Post I Q (r, fs, crashed) h = h

pub Holds-try :
    {A : Type 0} (P I : Root → Type 0) (Q : A → Root → Type 0) (m : Io A)
    → Holds P m Q I
    → Holds P (try m) (Either Q I) I
Holds-try P I Q m h r fs p = try-Post I Q (m r fs) (h r fs p)
