-- ===== src/Update/Artifacts.antt =====
-- The test of a release's artifacts: validateArtifacts, validTarget and validRelativePath of
-- internal/update/client.go.
use kelmor.Base.{
  ℕ, ◌+◌, ◌-◌, ◌%◌, ◌<◌, ◌≤◌, String, Bool, true, false, not, ◌&&◌, ◌||◌, ◌≡◌, refl, Option, none,
  some, List, [], ◌∷◌, ◌==◌, any, All, length, if◌then◌else◌, nat_eq, slt, add64, word_mod, arith,
  Option-cases, Bool-cases, inl, inr, eq→≡, eq_refl, subst, sym,
}
use kelmor.Paths.Text.{contains, has_prefix}
use kelmor.Update.Transaction.{Artifact}

-- What the code takes from path, net/url and encoding/hex.
pub record Formats : Type 0 where
  pub is_abs : String → Bool
  pub clean : String → String
  pub path_unescape : String → Option String
  pub decode_hex : String → Option (List ℕ)

abbrev pub max_artifact_size : ℕ
max_artifact_size = 268435456

abbrev pub max_download_size : ℕ
max_download_size = 1073741824

abbrev pub is_same : Option String → String → Bool
is_same none s = false
is_same (some t) s = t == s

abbrev pub has_length : Option (List ℕ) → ℕ → Bool
has_length none n = false
has_length (some bytes) n = nat_eq (length bytes) n

-- The paths and targets that the loop has seen, and the sum of the sizes.
pub record Seen : Type 0 where
  pub paths : List String
  pub targets : List String
  pub total : ℕ

abbrev pub is_in : String → List String → Bool
is_in s xs = any (λ x. x == s) xs

-- a - b on int64
abbrev pub sub64 : ℕ → ℕ → ℕ
sub64 a b = (a + word_mod - b) % word_mod

module _ (formats : Formats) where
  unfoldable pub valid_relative_path : String → Bool
  valid_relative_path value =
      if value == "" || (contains value "\\" || formats.is_abs value)
      then false
      else if not (is_same (formats.path_unescape value) value)
      then false
      else (formats.clean value == value
          && (not (formats.clean value == ".")
              && (not (formats.clean value == "..")
                  && not (has_prefix (formats.clean value) "../"))))

  unfoldable pub valid_target : String → Bool
  valid_target target =
      if not (valid_relative_path target)
      then false
      else (has_prefix target "bin/"
          || (has_prefix target "share/portals/account/"
              || (has_prefix target "share/portals/server/"
                  || (has_prefix target "share/systemd/"
                      || (has_prefix target "share/migrations/"
                          || (has_prefix target "share/templates/"
                              || has_prefix target "share/policy/"))))))

  unfoldable pub artifact_error : Artifact → Seen → Option String
  artifact_error a seen =
      if not (valid_relative_path a.path)
      then some "invalid artifact path"
      else if not (valid_target a.target)
      then some "invalid artifact target"
      else if is_in a.path seen.paths
      then some "duplicate artifact path"
      else if is_in a.target seen.targets
      then some "duplicate artifact target"
      else if slt a.size 0 || slt max_artifact_size a.size
      then some "artifact size is outside safety limits"
      else if slt (sub64 max_download_size a.size) seen.total
      then some "total artifact size exceeds safety limit"
      else if not (has_length (formats.decode_hex a.sha256) 32)
      then some "invalid SHA-256 for artifact"
      else if not (nat_eq a.mode 420) && not (nat_eq a.mode 493)
      then some "invalid mode for artifact"
      else none

  abbrev pub and_seen : Artifact → Seen → Seen
  and_seen a seen = record {
    paths = a.path ∷ seen.paths;
    targets = a.target ∷ seen.targets;
    total = add64 seen.total a.size;
  }

  unfoldable pub validate_loop : List Artifact → Seen → Option String
  validate_loop [] seen = none
  validate_loop (a ∷ rest) seen = elim (artifact_error a seen) [
    | some e ↦ some e
    | none ↦ validate_loop rest (and_seen a seen)
  ]

  unfoldable pub validate_artifacts : List Artifact → Option String
  validate_artifacts [] = some "manifest contains no artifacts"
  validate_artifacts (a ∷ rest) =
      validate_loop (a ∷ rest) (record { paths = []; targets = []; total = 0 })

  abbrev pub sizes : List Artifact → ℕ
  sizes [] = 0
  sizes (a ∷ rest) = a.size + sizes rest

  abbrev pub has_target : String → List Artifact → Bool
  has_target t as' = any (λ (a : Artifact). a.target == t) as'

  abbrev pub Different : List Artifact → Type 0
  Different [] = Unit
  Different (a ∷ rest) = (has_target a.target rest ≡ false) × Different rest

  -- What an artifact that passes is.
  error-none :
      (a : Artifact) (seen : Seen)
      → a.size < word_mod
      → seen.total ≤ max_download_size
      → artifact_error a seen ≡ none
      → (valid_target a.target ≡ true)
        × (is_in a.target seen.targets ≡ false)
        × (a.size ≤ max_artifact_size)
        × (seen.total + a.size ≤ max_download_size)
  unfolding artifact_error
  error-none a seen w t h = ground arith

  -- What a loop that ends with no error has let pass.
  pub record Passed (as' : List Artifact) (seen : Seen) : Type 0 where
    pub each : All (λ a. (valid_target a.target ≡ true) × (a.size ≤ max_artifact_size)) as'
    pub total : seen.total + sizes as' ≤ max_download_size
    pub different : Different as'
    pub unseen : (t : String) → is_in t seen.targets ≡ true → has_target t as' ≡ false

  validate_loop-Passed :
      (as' : List Artifact) (seen : Seen)
      → All (λ a. a.size < word_mod) as'
      → seen.total ≤ max_download_size
      → validate_loop as' seen ≡ none
      → Passed as' seen
  unfolding validate_loop
  validate_loop-Passed [] seen w t h = record {
    each = tt;
    total = omega arith;
    different = tt;
    unseen = λ k e. refl;
  }
  validate_loop-Passed (a ∷ rest) seen w t h = elim (Option-cases (artifact_error a seen)) [
    | inr (e, bad) ↦ absurd (cc (rw (bad, validate_loop) at h))
    | inl good ↦
        let (valid, new, small, fits) = error-none a seen w.0 t good in
        let sum : add64 seen.total a.size ≡ seen.total + a.size = omega arith in
        let later : Passed rest (and_seen a seen) =
          validate_loop-Passed rest (and_seen a seen) w.1 (omega arith)
            (rw (good, validate_loop) at h) in
        record {
          each = ((valid, small), later.each);
          total = omega (arith, later.total, sum);
          different = (later.unseen a.target (rw (eq_refl a.target) refl), later.different);
          unseen = λ k e. elim (Bool-cases (a.target == k)) [
            | inl hit ↦
                let again : is_in a.target seen.targets ≡ true =
                  subst (λ x. is_in x seen.targets ≡ true) (sym (eq→≡ a.target k hit)) e in
                absurd (cc (new, again))
            | inr miss ↦ rw miss (later.unseen k (rw miss e))
          ];
        }
  ]

  -- Artifacts that validateArtifacts lets pass, if any, have valid targets that differ from one
  -- another, none is larger than the limit of one artifact, and together they are not larger than
  -- the limit of a download. Their sizes are 64-bit numbers.
  pub validate_artifacts-Passed :
      (as' : List Artifact)
      → All (λ a. a.size < word_mod) as'
      → validate_artifacts as' ≡ none
      → All (λ a. (valid_target a.target ≡ true) × (a.size ≤ max_artifact_size)) as'
        × (sizes as' ≤ max_download_size)
        × Different as'
  unfolding validate_artifacts
  validate_artifacts-Passed [] w h = cc
  validate_artifacts-Passed (a ∷ rest) w h =
      let p : Passed (a ∷ rest) (record { paths = []; targets = []; total = 0 }) =
        validate_loop-Passed (a ∷ rest) (record { paths = []; targets = []; total = 0 }) w
          (omega arith) h in
      (p.each, omega (arith, p.total), p.different)
