-- ===== src/Serwb/Series7.antt =====
-- The shift of _S7SerdesRX in liteiclink/serwb/s7serdes.py: each pulse of `shift_inc` slips the
-- deserializer by a bit, and every eighth is passed on to the data path, which takes out a word.
use liteiclink.Base.{
  ℕ, ◌+◌, ◌*◌, ◌%◌, ◌^◌, ◌<◌, Bool, ◌&&◌, ◌==◌, List, [], ◌∷◌, ◌≡◌, arith, clock, if◌then◌else◌,
}

-- `_shift`, and `datapath.shift_inc`.
unfoldable pub shift_next : ℕ → Bool → ℕ
shift_next shift inc = if inc then (shift + 1) % 2 ^ 3 else shift

unfoldable pub datapath_shift_inc : ℕ → Bool → Bool
datapath_shift_inc shift inc = inc && shift == 7

abbrev pub pulses : List Bool → ℕ
pulses [] = 0
pulses (inc ∷ ns) = (if inc then 1 else 0) + pulses ns

-- The words that the data path takes out in a run.
abbrev pub words_out : ℕ → List Bool → ℕ
words_out shift [] = 0
words_out shift (inc ∷ ns) =
    (if datapath_shift_inc shift inc then 1 else 0) + words_out (shift_next shift inc) ns

-- The bits that the deserializer is slipped by and the words that are taken out count the pulses.
pub slips_words :
    (shift : ℕ) (ns : List Bool)
    → shift < 8
    → 8 * words_out shift ns + clock shift_next shift ns ≡ shift + pulses ns
unfolding shift_next datapath_shift_inc
slips_words shift [] h = omega arith
slips_words shift (inc ∷ ns) h = ground (arith, slips_words (shift_next shift inc) ns)
