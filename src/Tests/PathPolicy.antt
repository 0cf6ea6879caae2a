-- ===== src/Tests/PathPolicy.antt =====
-- The theorems on the agent's paths, applied to some.
use kelmor.Base.{String, ◌⧺◌, true, false, ◌≡◌, refl, ◌⊎◌, some, any, ◌==◌}
use kelmor.Paths.Text.{has_prefix, contains, has_nul, has_slash, trim_prefix, trim_suffix}
use kelmor.Paths.Policy.{
  FilePath, ok, approve, is_below, is_allowed, is_special, validate_managed_path, account_root,
  within_account, account_relative, base_of, candidates, longer, best_root, split_at, split_managed,
}
use kelmor.Paths.Split.{IsSplit, Longest, split_managed-IsSplit}
use kelmor.Paths.Within.{home, within_account-account_relative}

-- For paths that are clean already.
abbrev unix_paths : FilePath
unix_paths = record { is_abs = λ p. has_prefix p "/"; clean = λ p. p; join = λ a b. a ⧺ ("/" ⧺ b) }

site_in_home : within_account unix_paths "ann" "/home/ann/www/a" ≡ ok "/home/ann/www/a"
unfolding within_account validate_managed_path approve is_allowed is_below is_special account_root
    has_nul trim_suffix
site_in_home = refl

ann_is_plain : has_slash "ann" ≡ false
unfolding has_slash
ann_is_plain = refl

within_account-account_relative_example :
    (rest : String) × (account_relative "/home/ann/www/a" ≡ some ("ann", rest))
    × ((("/home/ann/www/a" ≡ home "ann") × (rest ≡ ""))
        ⊎ ("/home/ann/www/a" ≡ home "ann" ⧺ ("/" ⧺ rest)))
    × (contains "/home/ann/www/a" ".." ≡ false)
within_account-account_relative_example =
    within_account-account_relative unix_paths "ann" "/home/ann/www/a" refl ann_is_plain refl
      site_in_home

splits :
    split_managed "/etc/ssh/sshd_config.d/panel.conf" ≡ ok ("/etc/ssh/sshd_config.d", "panel.conf")
unfolding split_managed split_at best_root longer is_below trim_prefix trim_suffix
splits = refl

split_managed-IsSplit_example :
    IsSplit "/etc/ssh/sshd_config.d/panel.conf" "/etc/ssh/sshd_config.d" "panel.conf"
    × (any (λ root. base_of root == "/etc/ssh/sshd_config.d") candidates ≡ true)
    × Longest "/etc/ssh/sshd_config.d/panel.conf" "/etc/ssh/sshd_config.d" candidates
split_managed-IsSplit_example = split_managed-IsSplit "/etc/ssh/sshd_config.d/panel.conf" splits
