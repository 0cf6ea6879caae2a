-- ===== src/Paths/Text.antt =====
-- The functions of Go's package strings that agent/policy/path.go uses.
use Prim.Native.Char.{Char, code}
use Prim.Native.String.{len, slice}
use text.Mathlib.Text.{starts_with, find?}
use text.Mathlib.TextEquality.{starts_with_iff}
use text.Mathlib.TextPositions.{starts_with-append, slice-append_right, len-append}
use text.Mathlib.TextLemmas.{nil-append, cons-append}
use kelmor.Base.{
  ◌-◌, String, ◌⧺◌, Bool, true, false, ◌≡◌, refl, ap, ◌∙◌, inl, inr, subst, ◌==◌, is_some, nat_eq,
  if◌then◌else◌, Bool-cases,
}

abbrev pub contains : String → String → Bool
contains s t = is_some (find? s t)

abbrev pub has_prefix : String → String → Bool
has_prefix s p = starts_with s p

unfoldable pub trim_prefix : String → String → String
trim_prefix s p = if has_prefix s p then slice s (len p) (len s) else s

unfoldable pub trim_suffix : String → String → String
trim_suffix s t = if slice s (len s - len t) (len s) == t then slice s 0 (len s - len t) else s

abbrev pub is_slash : Char → Bool
is_slash c = nat_eq (code c) 47

unfoldable pub has_nul : String → Bool
has_nul String.[] = false
has_nul (String.◌∷◌ c s) = let rest = has_nul s in if nat_eq (code c) 0 then true else rest

-- What stands before the first slash and after it, and whether there is one.
unfoldable pub cut_slash : String → String × String × Bool
cut_slash String.[] = ("", "", false)
cut_slash (String.◌∷◌ c s) =
    let (before, after, found) = cut_slash s in
    if is_slash c then ("", s, true) else (String.◌∷◌ c before, after, found)

unfoldable pub has_slash : String → Bool
has_slash String.[] = false
has_slash (String.◌∷◌ c s) = let rest = has_slash s in if is_slash c then true else rest

pub trim_prefix-append : (p s : String) → trim_prefix (p ⧺ s) p ≡ s
unfolding trim_prefix
trim_prefix-append p s = rw (starts_with-append p s, len-append p s) (slice-append_right p s)

-- A prefix that is there is what is trimmed.
pub append-trim_prefix : (s p : String) → has_prefix s p ≡ true → p ⧺ trim_prefix s p ≡ s
append-trim_prefix s p h =
    let (u, e) = (starts_with_iff s p).0 h in
    subst (λ t. p ⧺ trim_prefix t p ≡ t) e (ap (λ t. p ⧺ t) (trim_prefix-append p u))

pub trim_prefix_miss : (s p : String) → has_prefix s p ≡ false → trim_prefix s p ≡ s
unfolding trim_prefix
trim_prefix_miss s p h = rw h refl

abbrev slash : Char
slash = "/"

slash-append : (r : String) → "/" ⧺ r ≡ String.◌∷◌ slash r
slash-append r = cons-append slash "" r ∙ ap (String.◌∷◌ slash) (nil-append r)

-- A text with no slash is cut off at the slash that follows it.
pub cut_slash-append :
    (u r : String) → has_slash u ≡ false → cut_slash (u ⧺ ("/" ⧺ r)) ≡ (u, r, true)
unfolding cut_slash has_slash
cut_slash-append String.[] r h = rw (nil-append ("/" ⧺ r), slash-append r) refl
cut_slash-append (String.◌∷◌ c u) r h = elim (Bool-cases (is_slash c)) [
  | inl slash ↦ absurd (cc (slash))
  | inr plain ↦ rw (cons-append c u ("/" ⧺ r), plain, cut_slash-append u r (rw plain at h)) refl
]

pub cut_slash_none : (u : String) → has_slash u ≡ false → cut_slash u ≡ (u, "", false)
unfolding cut_slash has_slash
cut_slash_none String.[] h = refl
cut_slash_none (String.◌∷◌ c u) h = elim (Bool-cases (is_slash c)) [
  | inl slash ↦ absurd (cc (slash))
  | inr plain ↦ rw (plain, cut_slash_none u (rw plain at h)) refl
]
