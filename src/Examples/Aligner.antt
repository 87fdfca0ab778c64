-- ===== src/Examples/Aligner.antt =====
-- Runs of the clock aligner of liteiclink/serdes/clock_aligner.py.
use liteiclink.Base.{ℕ, Bool, true, false, List, [], ◌∷◌, ◌++◌, ◌≡◌, refl, arith, replicate, clock}
use liteiclink.Serdes.ClockAligner.{Input, RxInput, power_on, next, ready, is_comma, is_unbalanced}
use liteiclink.Serdes.ClockAligner.Aligns.{aligner_aligns}
use liteiclink.Serdes.ClockAligner.Flags.{any_comma, any_unbalanced}

-- The flag of the commas in a cycle.
abbrev flag : Bool → Input
flag b = record { disable = false; comma_seen = b; error_seen = false }

-- Up at the checks alone, which clear it.
abbrev flags : List Input
flags =
    flag false ∷ flag true ∷ (replicate 3 (flag false) ++ (flag true ∷ replicate 3 (flag false)))

aligner_aligns_example : (clock (next 3) power_on flags).fsm ≡ ready
unfolding next
aligner_aligns_example = aligner_aligns 3 power_on flags (omega arith) refl (omega arith)

abbrev comma : ℕ
comma = 0b0101111100

abbrev word : Bool → ℕ → RxInput
word checks_reset rxdata = record { checks_reset = checks_reset; rxdata = rxdata }

abbrev words : List RxInput
words = word false 0b0101010101 ∷ word false 0b1010000011 ∷ []

-- The second word is the inverted comma, and the word of ones is out of balance.
both_flags : (any_comma comma words ≡ true) × (any_unbalanced 10 words ≡ true)
unfolding is_comma is_unbalanced
both_flags = (refl, refl)
