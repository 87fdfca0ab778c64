-- ===== src/Serwb/Datapath.antt =====
-- liteiclink/serwb/datapath.py: RXAligner, and what TXDatapath and RXDatapath do around the encoder,
-- the decoder and the converters of LiteX. `k28_5` and `k28_1` stand for LiteX's K(28, 5), K(28, 1).
pub mod Aligner
pub mod Symbols
pub mod Idle
use liteiclink.Base.{ℕ, ◌-◌, ◌^◌, Bool, true, false, not, ◌&&◌, ◌||◌, ◌==◌, if◌then◌else◌}

-- RXAligner: `shift_inc`, `sink.valid`, `sink.data` and `source.ready`. Its register is `_shift`.
pub record AlignerIn : Type 0 where
  pub shift_inc : Bool
  pub valid : Bool
  pub element : ℕ
  pub ready : Bool

pub record AlignerOut : Type 0 where
  pub source_valid : Bool
  pub sink_ready : Bool

unfoldable pub aligner_out : Bool → AlignerIn → AlignerOut
aligner_out shift n =
    if shift
    then record { source_valid = false; sink_ready = true }
    else record { source_valid = n.valid; sink_ready = n.ready }

unfoldable pub aligner_next : Bool → AlignerIn → Bool
unfolding aligner_out
aligner_next shift n =
    if n.shift_inc
    then true
    else if n.valid && (aligner_out shift n).sink_ready
    then false
    else shift

module _ (k28_5 k28_1 : ℕ) where
  -- TXDatapath: the controls, what the sink or the scrambler gives to the encoder, and `ready` of the
  -- encoder. Without the scrambler `k` is 0.
  pub record TxIn : Type 0 where
    pub idle : Bool
    pub comma : Bool
    pub wait : Bool
    pub valid : Bool
    pub k : ℕ
    pub word : ℕ
    pub ready : Bool

  -- What the encoder takes, `sink.ready`, and whether the line is idle, that is whether the converter
  -- gets 0 in place of the encoder's output.
  pub record TxOut : Type 0 where
    pub valid : Bool
    pub k : ℕ
    pub d : ℕ
    pub sink_ready : Bool
    pub is_idle : Bool

  -- Each of the three statements overrides those before it.
  unfoldable pub tx_out : TxIn → TxOut
  tx_out n =
      let control = n.comma || n.wait in
      record {
        valid = n.valid || control;
        k = if control then 1 else n.k;
        d = if n.wait then k28_1 else if n.comma then k28_5 else n.word;
        sink_ready = if n.idle || control then false else n.ready;
        is_idle = n.idle;
      }

  -- RXDatapath: the registers `idle_timer.wait` and `comma`.
  pub record Flags : Type 0 where
    pub idle_wait : Bool
    pub comma : Bool

  -- What comes out of the converter and out of the decoder, and `source.ready`.
  pub record RxIn : Type 0 where
    pub word_valid : Bool
    pub word : ℕ
    pub valid : Bool
    pub k : ℕ
    pub d : ℕ
    pub ready : Bool

  unfoldable pub flags_next : Flags → RxIn → Flags
  flags_next s n = record {
    idle_wait = if n.word_valid then n.word == 0 || n.word == 2 ^ 40 - 1 else s.idle_wait;
    comma = if n.valid then n.k == 1 && n.d == k28_5 else s.comma;
  }

  -- `wait`, and `source.valid` and `decoder.source.ready` without the descrambler.
  unfoldable pub rx_wait : RxIn → Bool
  rx_wait n = if n.valid then n.k == 1 && n.d == k28_1 else false

  pub record RxOut : Type 0 where
    pub source_valid : Bool
    pub decoder_ready : Bool

  unfoldable pub rx_out : RxIn → RxOut
  unfolding rx_wait
  rx_out n =
      if rx_wait n
      then record { source_valid = false; decoder_ready = true }
      else record { source_valid = n.valid; decoder_ready = n.ready }
