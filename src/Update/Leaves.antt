-- ===== src/Update/Leaves.antt =====
-- What an installation leaves for each of its results: installWithOperationLock, from
-- beginTransaction on, and rollbackFailedInstall of internal/update/apply.go.
use kelmor.Base.{
  ◌==◌, String, Bool, true, false, ◌≡◌, refl, ◌⊎◌, inl, inr, none, some, List, if◌then◌else◌,
}
use kelmor.Update.Root.{SnapshotMetadata, Root, Io, Entry, prune, metadata_file, ◌>>=◌}
use kelmor.Update.Transaction.{Artifact, cleanup_transaction}
use kelmor.Update.Install.{
  InstallResult, installed, install_error, rolled_back, critical, try, write_status, ended,
}
use kelmor.Update.Cleanup.{cleanup-Holds}
use kelmor.Update.Rules.{Post-map, Either, Holds, Holds-bind, Holds-look}
use kelmor.Update.Pending.{Agrees}
use kelmor.Update.Copies.{schema_target}
use kelmor.Update.Safe.{Sealed, New, Safe, Holds-try}

-- All old files are back but the schemas.
pub record Old (o : Root) (as' : List Artifact) (r : Root) : Type 0 where
  pub targets : Agrees (schema_target as') o r
  pub release : r.release ≡ o.release
  pub over : r.transaction ≡ false

abbrev pub Leaves : Root → List Artifact → String → InstallResult → Root → Type 0
Leaves o as' name installed r = New o as' name r
Leaves o as' name (install_error e) r = (r.live ≡ o.live) × (r.release ≡ o.release)
Leaves o as' name (rolled_back e) r = Old o as' r
Leaves o as' name (critical e e') r = Safe o as' name r

pub status-Holds : (J : Root → Type 0) (b : Bool) → Holds J (write_status b) (λ u. J) J
status-Holds J true = Holds-look J J (λ u. J) (λ r. tt) (λ r p. p) (λ r p. p)
status-Holds J false = λ r fs p. p

-- Where the result does not depend on the error.
pub try_then :
    (J I : Root → Type 0) (V : InstallResult → Root → Type 0) (m : Io (Unit {0}))
    (res : InstallResult)
    → Holds J m (λ u. J) J
    → ((r : Root) → J r → V res r)
    → ((r : Root) → J r → I r)
    → Holds J (try m >>= ended res res) V I
try_then J I V m res h v i =
    Holds-bind J I (Either (λ u. J) J) V (try m) (ended res res)
      (λ r fs p.
        Post-map (Either (λ u. J) J) (Either (λ u. J) J) J I (try m r fs) (λ a s q. q) i
          (Holds-try J J (λ u. J) m h r fs p))
      (λ x. either x)
  where
    either : (x : Unit {0} ⊎ String) → Holds (Either (λ u. J) J x) (ended res res x) V I
    either (inl u) = λ r fs p. v r p
    either (inr e) = λ r fs p. v r p

prune-Sealed : (gone : Entry → Bool) (r : Root) → Sealed r → Sealed (prune gone r)
unfolding prune
prune-Sealed gone r p =
    elim (gone metadata_file)
      as (λ b.
        ((if b then none else r.journal) ≡ none)
        ⊎ ((md : SnapshotMetadata) × ((if b then none else r.journal) ≡ some md)
            × ((md.state == "committed") ≡ true))) [ true ↦ inl refl | false ↦ p ]

module _ (o : Root) (as' : List Artifact) (name : String) where
  prune-New : (gone : Entry → Bool) (r : Root) → New o as' name r → New o as' name (prune gone r)
  unfolding prune
  prune-New gone r p = (
    record { targets = p.0.targets; others = p.0.others; release = p.0.release },
    prune-Sealed gone r p.1,
  )

  mark-New : (r : Root) → New o as' name r → New o as' name (record r { transaction = false })
  mark-New r p = (record { targets = p.0.targets; others = p.0.others; release = p.0.release }, p.1)

  pub cleanup-New :
      Holds (New o as' name) cleanup_transaction (λ u. New o as' name) (New o as' name)
  cleanup-New = cleanup-Holds (New o as' name) prune-New mark-New
