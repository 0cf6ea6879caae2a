-- ===== src/Paths/Within.antt =====
-- WithinAccount and AccountRelative of agent/policy/path.go, which the agent uses one after the
-- other.
use kelmor.Base.{
  String, ◌⧺◌, true, false, not, ◌&&◌, ◌||◌, ◌≡◌, refl, sym, ◌∙◌, ◌⊎◌, inl, inr, some, ◌==◌, arith,
  Bool-cases, eq→≡, subst, any,
}
use text.Mathlib.TextLemmas.{append_assoc}
use text.Mathlib.TextPositions.{starts_with-append}
use kelmor.Paths.Text.{
  has_prefix, has_nul, contains, trim_prefix, trim_prefix-append, append-trim_prefix,
  cut_slash-append, cut_slash_none, has_slash,
}
use kelmor.Paths.Policy.{
  FilePath, ok, ◌>>◌, refuse, refuse-ok, bind-ok, approve, validate_managed_path, is_allowed,
  is_special, allowed_roots, account_root, within_account, account_relative,
}

abbrev pub home : String → String
home user = "/home/" ⧺ user

root-account_relative :
    (user : String)
    → has_slash user ≡ false
    → (user == "") ≡ false
    → account_relative (home user) ≡ some (user, "")
unfolding account_relative
root-account_relative user h n =
    rw
      (starts_with-append "/home/" user, trim_prefix-append "/home/" user, cut_slash_none user h, n)
      refl

below-account_relative :
    (user rest : String)
    → has_slash user ≡ false
    → (user == "") ≡ false
    → account_relative (home user ⧺ ("/" ⧺ rest)) ≡ some (user, rest)
unfolding account_relative
below-account_relative user rest h n =
    rw
      (
        append_assoc "/home/" user ("/" ⧺ rest),
        starts_with-append "/home/" (user ⧺ ("/" ⧺ rest)),
        trim_prefix-append "/home/" (user ⧺ ("/" ⧺ rest)),
        cut_slash-append user rest h,
        n,
      )
      refl

approve-ok : (path : String) {c : String} → approve path ≡ ok c → contains c ".." ≡ false
unfolding approve
approve-ok path {c} h =
    let h1 =
      refuse-ok (has_nul path) "NUL path"
        (refuse (not (any (is_allowed path) allowed_roots || is_special path))
            "path outside approved prefixes"
          >> (refuse (contains path "..") "path escape" >> ok path))
        h in
    let h2 =
      refuse-ok (not (any (is_allowed path) allowed_roots || is_special path))
        "path outside approved prefixes" (refuse (contains path "..") "path escape" >> ok path)
        h1.1 in
    let h3 = refuse-ok (contains path "..") "path escape" (ok path) h2.1 in
    let same : path ≡ c = cc (h3.1) in subst (λ t. contains t ".." ≡ false) same h3.0

module _ (fp : FilePath) where
  validate_managed_path-ok :
      (p : String) {c : String} → validate_managed_path fp p ≡ ok c → contains c ".." ≡ false
  unfolding validate_managed_path
  validate_managed_path-ok p h =
      let h1 =
        refuse-ok (p == "" || has_nul p) "empty or NUL path"
          (refuse (not (fp.is_abs p)) "path must be absolute" >> approve (fp.clean p)) h in
      approve-ok (fp.clean p)
        (refuse-ok (not (fp.is_abs p)) "path must be absolute" (approve (fp.clean p)) h1.1).1

  -- The two ways to be within the root.
  boundary :
      (user path : String)
      → has_slash user ≡ false
      → (user == "") ≡ false
      → (not (path == home user) && not (has_prefix path (home user ⧺ "/"))) ≡ false
      → (rest : String) × (account_relative path ≡ some (user, rest))
        × (((path ≡ home user) × (rest ≡ "")) ⊎ (path ≡ home user ⧺ ("/" ⧺ rest)))
  boundary user path plain n h = elim (Bool-cases (path == home user)) [
    | inl root ↦
        let e : path ≡ home user = eq→≡ path (home user) root in
        ("", rw e (root-account_relative user plain n), inl (e, refl))
    | inr other ↦
        let there : has_prefix path (home user ⧺ "/") ≡ true = ground (arith) in
        let rest : String = trim_prefix path (home user ⧺ "/") in
        let e : home user ⧺ ("/" ⧺ rest) ≡ path =
          sym (append_assoc (home user) "/" rest)
          ∙ append-trim_prefix path (home user ⧺ "/") there in
        (
          rest,
          subst (λ t. account_relative t ≡ some (user, rest)) e
              (below-account_relative user rest plain n),
          inr (sym e),
        )
  ]

  -- A path that WithinAccount accepts for a user holds no ".."; it is the user's home or stands
  -- below it, and AccountRelative takes it apart into that user and what follows. The user's name
  -- is not empty and has no slash, and filepath.Join puts it behind "/home/".
  pub within_account-account_relative :
      (user requested : String) {c : String}
      → fp.join "/home" user ≡ home user
      → has_slash user ≡ false
      → (user == "") ≡ false
      → within_account fp user requested ≡ ok c
      → (rest : String) × (account_relative c ≡ some (user, rest))
        × (((c ≡ home user) × (rest ≡ "")) ⊎ (c ≡ home user ⧺ ("/" ⧺ rest)))
        × (contains c ".." ≡ false)
  unfolding within_account
  within_account-account_relative user requested {c} join plain n h =
      let (path, v, k) =
        bind-ok (validate_managed_path fp requested)
          (λ x.
            refuse
              (not (x == account_root fp user) && not (has_prefix x (account_root fp user ⧺ "/")))
              "path outside account boundary"
            >> ok x)
          h in
      let h2 =
        refuse-ok
          (not (path == account_root fp user) && not (has_prefix path (account_root fp user ⧺ "/")))
          "path outside account boundary" (ok path) k in
      let same : path ≡ c = cc (h2.1) in
      let inside = boundary user path plain n (
        subst (λ root. (not (path == root) && not (has_prefix path (root ⧺ "/"))) ≡ false) join
          (unfold account_root in h2.0)) in
      subst
        (λ t.
          (rest : String) × (account_relative t ≡ some (user, rest))
          × (((t ≡ home user) × (rest ≡ "")) ⊎ (t ≡ home user ⧺ ("/" ⧺ rest)))
          × (contains t ".." ≡ false))
        same (inside.0, inside.1, inside.2, validate_managed_path-ok requested v)
