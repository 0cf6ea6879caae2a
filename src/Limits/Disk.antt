-- ===== src/Limits/Disk.antt =====
-- The tests of Enforce and DiskWouldExceed (internal/limits/limits.go) on numbers in range.
use kelmor.Base.{
  ℕ, ◌+◌, ◌<◌, ◌≤◌, String, ◌≡◌, ◌↔◌, ◌⊎◌, none, arith, sign_bit, sle, Bool-cases, inl, inr,
}
use kelmor.Limits.{enforce, disk_would_exceed}

-- For a positive limit, and numbers that are not negative and whose sum stays below 2^63,
-- DiskWouldExceed allows a write if and only if it fits.
pub disk_would_exceed-fits :
    (used incoming limit : ℕ)
    → 0 < limit
    → limit < sign_bit
    → used + incoming < sign_bit
    → (disk_would_exceed used incoming limit ≡ none) ↔ (used + incoming ≤ limit)
unfolding disk_would_exceed
disk_would_exceed-fits used incoming limit l b s = (λ e. ground arith, λ e. ground arith)

-- For numbers that are not negative, Enforce allows one more if and only if there is no limit or
-- it is not reached.
pub enforce-allows :
    (used limit : ℕ) (kind : String)
    → limit < sign_bit
    → used < sign_bit
    → (enforce used limit kind ≡ none) ↔ ((limit ≡ 0) ⊎ (used < limit))
unfolding enforce
enforce-allows used limit kind b s = (
  λ e. elim (Bool-cases (sle limit 0)) [ inl z ↦ inl (ground arith) | inr p ↦ inr (ground arith) ],
  λ e. ground arith,
)
