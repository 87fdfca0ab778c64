-- ===== src/Serwb/Efinix.antt =====
-- liteiclink/serwb/efinixserdes.py: BitSlip, and the phase, the shift and the data path of
-- _EfinixSerdesRX. Words are lists of bits, the lowest first.
pub mod Shift
use liteiclink.Base.{
  ℕ, zero, suc, ◌+◌, ◌-◌, ◌*◌, ◌%◌, ◌^◌, Bool, true, false, ◌&&◌, List, [], ◌∷◌, ◌++◌, ◌==◌,
  if◌then◌else◌, ltb, take, drop, replicate,
}
use liteiclink.Serwb.Datapath.{AlignerIn, aligner_next}

-- BitSlip: `value` and `r`.
pub record BitSlip : Type 0 where
  pub value : ℕ
  pub r : List Bool

pub record SlipIn : Type 0 where
  pub rst : Bool
  pub inc : Bool
  pub i : List Bool

module _ (dw cycles : ℕ) where
  unfoldable pub slip_next : BitSlip → SlipIn → BitSlip
  slip_next s n = record {
    value =
        if n.rst
        then 0
        else if n.inc
        then (if s.value == dw - 1 then 0 else s.value + 1)
        else s.value;
    r = drop dw s.r ++ n.i;
  }

  -- `o`, with a case for each value below `cycles * dw`.
  unfoldable pub slip_out : BitSlip → List Bool
  slip_out s = if ltb s.value (cycles * dw) then take dw (drop s.value s.r) else replicate dw false

-- The number that a signal holds.
abbrev pub number : List Bool → ℕ
number [] = 0
number (b ∷ bs) = (if b then 1 else 0) + 2 * number bs

-- `phase`, for 1, 2 or 4 phases.
unfoldable pub phase_next : ℕ → ℕ → ℕ
phase_next phase_end phase = if phase == phase_end - 1 then 0 else (phase + 1) % 2 ^ 3

-- The transmitter takes from its data path in one of the phases.
unfoldable pub tx_source_ready : ℕ → Bool
tx_source_ready phase = phase == 0

-- _EfinixSerdesRX: `_shift`, `phase`, the bitslip, and the register of the aligner in the data path.
pub record Rx : Type 0 where
  pub shift : ℕ
  pub phase : ℕ
  pub slip : BitSlip
  pub aligner : Bool

-- `shift_inc`, `phase_sel`, the word of the deserializer, and `ready` of the aligner's source.
pub record RxInput : Type 0 where
  pub shift_inc : Bool
  pub phase_sel : ℕ
  pub bits : List Bool
  pub ready : Bool

-- What the data path gets.
unfoldable pub rx_aligner : Rx → RxInput → AlignerIn
unfolding slip_out
rx_aligner s n = record {
  shift_inc = n.shift_inc && s.shift == 7;
  valid = s.phase == n.phase_sel;
  element = number (slip_out 8 1 s.slip);
  ready = n.ready;
}

unfoldable pub rx_next : ℕ → Rx → RxInput → Rx
unfolding rx_aligner slip_next phase_next aligner_next
rx_next phase_end s n = record {
  shift = if n.shift_inc then (s.shift + 1) % 2 ^ 3 else s.shift;
  phase = phase_next phase_end s.phase;
  slip = slip_next 8 1 s.slip (record { rst = false; inc = n.shift_inc; i = n.bits });
  aligner = aligner_next s.aligner (rx_aligner s n);
}
