-- ===== src/Examples/Efinixs.antt =====
-- A run of the receiver of liteiclink/serwb/efinixserdes.py.
use liteiclink.Base.{◌+◌, ◌*◌, Bool, true, false, [], ◌∷◌, ◌++◌, ◌≡◌, refl, arith, replicate, drop}
use liteiclink.Serwb.Efinix.{Rx, RxInput, rx_next, rx_aligner}
use liteiclink.Serwb.Datapath.{aligner_out}
use liteiclink.Serwb.Efinix.Shift.{
  IsAligned, IsCycle, history, handed_on, chunks, words_after, pulse_takes_bit,
}

-- At the end of the bitslip, so that the pulse drops a word.
abbrev rx : Rx
rx = record {
  shift = 7;
  phase = 0;
  slip = record { value = 7; r = replicate 16 false };
  aligner = false;
}

abbrev cycle : Bool → RxInput
cycle inc = record {
  shift_inc = inc;
  phase_sel = 0;
  bits = true ∷ false ∷ true ∷ false ∷ true ∷ false ∷ true ∷ true ∷ [];
  ready = true;
}

rx-IsAligned : IsAligned rx
rx-IsAligned = record { counted = refl; in_word = omega arith; two_words = refl; one_phase = refl }

cycle-IsCycle : (inc : Bool) → IsCycle inc (cycle inc)
cycle-IsCycle inc = record { pulse = refl; selected = refl; byte = refl; ready = refl }

pulse_takes_bit_example :
    let h = history rx ((cycle false ∷ []) ++ (cycle true ∷ cycle false ∷ cycle false ∷ [])) in
    handed_on rx ((cycle false ∷ []) ++ (cycle true ∷ cycle false ∷ cycle false ∷ []))
    ≡ chunks 2 (drop 7 h)
      ++ chunks (words_after 7 (cycle false ∷ cycle false ∷ [])) (drop (7 + 8 * 2 + 1) h)
pulse_takes_bit_example =
    pulse_takes_bit rx (cycle false ∷ []) (cycle true) (cycle false ∷ cycle false ∷ []) rx-IsAligned
      refl (cycle-IsCycle false, tt) (cycle-IsCycle true)
      (cycle-IsCycle false, (cycle-IsCycle false, tt))

-- The bits that were there first, and those of the cycles but one.
words_of_run :
    handed_on rx ((cycle false ∷ []) ++ (cycle true ∷ cycle false ∷ cycle false ∷ []))
    ≡ 0 ∷ 170 ∷ 213 ∷ []
unfolding rx_next rx_aligner aligner_out
words_of_run = refl
