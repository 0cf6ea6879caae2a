-- ===== src/Tests/Quotas.antt =====
-- The theorems on limits, applied to small numbers.
use kelmor.Base.{ℕ, ◌≡◌, ◌↔◌, ◌⊎◌, ◌≤◌, ◌<◌, ◌+◌, ◌==◌, none, refl, arith}
use kelmor.Limits.{enforce, disk_would_exceed, domain_kind, domain_matches_kind, is_domain_type}
use kelmor.Limits.Disk.{disk_would_exceed-fits, enforce-allows}
use kelmor.Limits.Kinds.{domain_matches_kind-domain_kind}

disk_would_exceed-fits_example : (disk_would_exceed 5 3 10 ≡ none) ↔ (5 + 3 ≤ 10)
disk_would_exceed-fits_example =
    disk_would_exceed-fits 5 3 10 (omega arith) (omega arith) (omega arith)

-- A sum past 2^63 - 1 wraps to a negative number, which is below every limit.
wraps : disk_would_exceed 9223372036854775807 1 100 ≡ none
unfolding disk_would_exceed
wraps = refl

enforce-allows_example : (enforce 2 3 "domains" ≡ none) ↔ ((◌≡◌ {A = ℕ} 3 0) ⊎ (2 < 3))
enforce-allows_example = enforce-allows 2 3 "domains" (omega arith) (omega arith)

domain_matches_kind-domain_kind_example :
    domain_matches_kind "addon" (domain_kind "alias") ≡ (domain_kind "addon" == domain_kind "alias")
unfolding is_domain_type
domain_matches_kind-domain_kind_example = domain_matches_kind-domain_kind "addon" "alias" refl
