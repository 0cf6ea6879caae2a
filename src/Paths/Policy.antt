-- ===== src/Paths/Policy.antt =====
-- ValidateManagedPath, WithinAccount, AccountRelative and SplitManaged of agent/policy/path.go.
use Prim.Native.String.{len}
use kelmor.Base.{
  String, ◌⧺◌, Bool, true, false, not, ◌&&◌, ◌||◌, ◌≡◌, refl, Option, none, some, List, [], ◌∷◌,
  ◌++◌, ◌==◌, any, ltb, if◌then◌else◌,
}
use kelmor.Paths.Text.{has_prefix, contains, trim_prefix, trim_suffix, has_nul, cut_slash}

-- What the code takes from path/filepath.
pub record FilePath : Type 0 where
  pub is_abs : String → Bool
  pub clean : String → String
  pub join : String → String → String

pub data PathResult (A : Type 0) : Type 0 where
  ok : A → PathResult A
  err : String → PathResult A

infixl 5 ◌>>=◌ ◌>>◌
abbrev pub ◌>>=◌ : {A B : Type 0} → PathResult A → (A → PathResult B) → PathResult B
ok a >>= f = f a
err e >>= f = err e

abbrev pub ◌>>◌ : {B : Type 0} → PathResult (Unit {0}) → PathResult B → PathResult B
m >> k = m >>= λ _. k

-- if bad { return error }
abbrev pub refuse : Bool → String → PathResult (Unit {0})
refuse true e = err e
refuse false e = ok tt

pub refuse-ok :
    {A : Type 0} {x : A} (b : Bool) (e : String) (k : PathResult A)
    → (refuse b e >> k) ≡ ok x
    → (b ≡ false) × (k ≡ ok x)
refuse-ok true e k h = cc
refuse-ok false e k h = (refl, h)

pub bind-ok :
    {A B : Type 0} {y : B} (m : PathResult A) (k : A → PathResult B)
    → (m >>= k) ≡ ok y
    → (x : A) × (m ≡ ok x) × (k x ≡ ok y)
bind-ok (ok x) k h = (x, refl, h)
bind-ok (err e) k h = cc

abbrev pub allowed_roots : List String
allowed_roots =
    "/home/" ∷ "/etc/nginx/panel-sites/" ∷ "/etc/php/" ∷ "/etc/systemd/system/" ∷ "/var/lib/panel/"
    ∷ "/run/panel/" ∷ "/var/vmail/" ∷ "/etc/panel/" ∷ "/etc/ssh/sshd_config.d/"
    ∷ "/var/tmp/panel-imports/" ∷ "/var/log/nginx/" ∷ "/var/www/panel-acme/" ∷ []

abbrev pub base_of : String → String
base_of root = trim_suffix root "/"

-- The path is the root itself, or below it.
unfoldable pub is_below : String → String → Bool
is_below path root = path == base_of root || (has_prefix path root || has_prefix (path ⧺ "/") root)

unfoldable pub is_allowed : String → String → Bool
is_allowed path root =
    if root == "/etc/php/"
    then has_prefix path "/etc/php/" && contains path "/fpm/pool.d/"
    else has_prefix path (base_of root) && is_below path root

unfoldable pub is_special : String → Bool
is_special path =
    has_prefix path "/etc/cron.d/panel-"
    || (has_prefix path "/etc/nginx/conf.d/panel-"
        || (has_prefix path "/etc/rspamd/local.d/"
            || (has_prefix path "/etc/phpmyadmin/conf.d/panel-"
                || (path == "/etc/roundcube/config.panel.inc.php"
                    || path == "/etc/roundcube/config.inc.php"))))

-- The tests of a path that is clean.
unfoldable pub approve : String → PathResult String
approve path = do
  refuse (has_nul path) "NUL path"
  refuse (not (any (is_allowed path) allowed_roots || is_special path))
      "path outside approved prefixes"
  refuse (contains path "..") "path escape"
  ok path

module _ (fp : FilePath) where
  unfoldable pub validate_managed_path : String → PathResult String
  validate_managed_path p = do
    refuse (p == "" || has_nul p) "empty or NUL path"
    refuse (not (fp.is_abs p)) "path must be absolute"
    approve (fp.clean p)

  unfoldable pub account_root : String → String
  account_root username = fp.join "/home" username

  unfoldable pub within_account : String → String → PathResult String
  unfolding account_root
  within_account username requested = do
    path ← validate_managed_path requested
    refuse
        (not (path == account_root username) && not (has_prefix path (account_root username ⧺ "/")))
        "path outside account boundary"
    ok path

abbrev pub named : String × String × Bool → Option (String × String)
named (username, remainder, true) = if username == "" then none else some (username, remainder)
named (username, remainder, false) = if username == "" then none else some (username, "")

-- The user of a path below /home, and what follows.
unfoldable pub account_relative : String → Option (String × String)
account_relative path =
    if not (has_prefix path "/home/") then none else named (cut_slash (trim_prefix path "/home/"))

abbrev pub candidates : List String
candidates =
    allowed_roots
    ++ ("/etc/cron.d/" ∷ "/etc/nginx/conf.d/" ∷ "/etc/rspamd/local.d/" ∷ "/etc/phpmyadmin/conf.d/"
        ∷ "/etc/roundcube/" ∷ [])

unfoldable pub longer : String → String → String → String
longer path root best =
    if is_below path root && ltb (len best) (len (base_of root)) then base_of root else best

unfoldable pub best_root : String → List String → String → String
best_root path [] best = best
best_root path (root ∷ roots) best = best_root path roots (longer path root best)

unfoldable pub split_at : String → String → PathResult (String × String)
split_at path best = do
  refuse (best == "") "path outside approved prefixes"
  refuse (path == best) "managed path requires a relative name"
  let rel = trim_prefix path (best ⧺ "/")
  refuse (rel == "" || (rel == path || contains rel "..")) "invalid managed relative path"
  ok (best, rel)

unfoldable pub split_managed : String → PathResult (String × String)
split_managed path = split_at path (best_root path candidates "")
