-- ===== src/Serwb/Link/Devices.antt =====
-- Which devices SERWBPHY of liteiclink/serwb/phy.py supports.
use liteiclink.Base.{ℕ, Bool, List, [], ◌∷◌, ◌++◌, ◌≡◌, refl, if◌then◌else◌}
use liteiclink.Serwb.Link.{Choice, chosen, assertion_error, not_implemented, ku, s7, efinix, choose}

-- Whatever follows in the name: the Kintex and Zynq Ultrascale and the 7-series devices are served at
-- the clock ratio 1:1 alone, Titanium and Trion at any, and the Virtex Ultrascale devices, whose names
-- start with "xcvu", are refused.
pub choose_lem :
    (rest : List ℕ) (one_to_one : Bool)
    → let only = λ (c : Choice). if one_to_one then c else assertion_error in
      (choose ((b'x' ∷ b'c' ∷ b'k' ∷ b'u' ∷ []) ++ rest) one_to_one ≡ only (chosen ku 512))
      × (choose ((b'x' ∷ b'c' ∷ b'z' ∷ b'u' ∷ []) ++ rest) one_to_one ≡ only (chosen ku 512))
      × (choose ((b'x' ∷ b'c' ∷ b'7' ∷ b'a' ∷ []) ++ rest) one_to_one ≡ only (chosen s7 32))
      × (choose ((b'x' ∷ b'c' ∷ b'7' ∷ b'k' ∷ []) ++ rest) one_to_one ≡ only (chosen s7 32))
      × (choose ((b'x' ∷ b'c' ∷ b'7' ∷ b'v' ∷ []) ++ rest) one_to_one ≡ only (chosen s7 32))
      × (choose ((b'x' ∷ b'c' ∷ b'7' ∷ b'z' ∷ []) ++ rest) one_to_one ≡ only (chosen s7 32))
      × (choose ((b'T' ∷ b'i' ∷ []) ++ rest) one_to_one ≡ chosen efinix 64)
      × (choose ((b'T' ∷ b'1' ∷ []) ++ rest) one_to_one ≡ chosen efinix 4)
      × (choose ((b'T' ∷ b'2' ∷ []) ++ rest) one_to_one ≡ chosen efinix 4)
      × (choose ((b'x' ∷ b'c' ∷ b'v' ∷ b'u' ∷ []) ++ rest) one_to_one ≡ not_implemented)
unfolding choose
choose_lem rest one_to_one = (refl, refl, refl, refl, refl, refl, refl, refl, refl, refl)
