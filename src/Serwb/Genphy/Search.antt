-- ===== src/Serwb/Genphy/Search.antt =====
-- The specification of the search for the word boundary in liteiclink/serwb/genphy.py.
use liteiclink.Base.{
  ℕ, zero, suc, ◌≤◌, Bool, true, false, Option, none, some, ◌≡◌, arith, if◌then◌else◌,
}

-- The first shift from `k` on, among `n` of them, at which commas are seen.
abbrev pub first_from : (ℕ → Bool) → ℕ → ℕ → Option ℕ
first_from comma_at zero k = none
first_from comma_at (suc n) k =
    let later = first_from comma_at n (suc k) in if comma_at k then some k else later

pub first_from-here :
    (comma_at : ℕ → Bool) (n k j : ℕ)
    → comma_at k ≡ true
    → first_from comma_at (suc n) k ≡ some j
    → j ≡ k
first_from-here comma_at n k j c h = ground arith

pub first_from-later :
    (comma_at : ℕ → Bool) (n k j : ℕ)
    → comma_at k ≡ false
    → first_from comma_at (suc n) k ≡ some j
    → (1 ≤ n) × (first_from comma_at n (suc k) ≡ some j)
first_from-later comma_at zero k j c h = ground arith
first_from-later comma_at (suc n) k j c h = ground arith
