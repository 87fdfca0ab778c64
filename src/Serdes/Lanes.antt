-- ===== src/Serdes/Lanes.antt =====
-- The lanes of the Xilinx transceivers, as in liteiclink/serdes/gtx_7series.py: the words of 10 bits
-- that the ports of the primitive carry, and those of 9 bits of the stream endpoints. A signal is a
-- number, `nwords` the number of lanes, and lane 0 has the lowest bits.
pub mod Roundtrip
pub mod Ecp5Bus
use liteiclink.Base.{
  ℕ, zero, suc, ◌+◌, ◌-◌, ◌*◌, ◌/◌, ◌%◌, ◌^◌, Bool, true, false, List, [], ◌∷◌, if◌then◌else◌,
}

-- `Cat(*[txdata[10*i:10*i+8] for i in range(nwords)])`, and the same of the bits 8 and 9.
unfoldable pub tx_data : ℕ → ℕ → ℕ
tx_data zero t = 0
tx_data (suc n) t = t % 2 ^ 8 + 2 ^ 8 * tx_data n (t / 2 ^ 10)

unfoldable pub tx_dispval : ℕ → ℕ → ℕ
tx_dispval zero t = 0
tx_dispval (suc n) t = t / 2 ^ 8 % 2 + 2 * tx_dispval n (t / 2 ^ 10)

unfoldable pub tx_dispmode : ℕ → ℕ → ℕ
tx_dispmode zero t = 0
tx_dispmode (suc n) t = t / 2 ^ 9 % 2 + 2 * tx_dispmode n (t / 2 ^ 10)

-- `rxdata`, of which the ports `RXDATA`, `RXCHARISK` and `RXDISPERR` drive the slices.
unfoldable pub rx_word : ℕ → ℕ → ℕ → ℕ → ℕ
rx_word zero byte k e = 0
rx_word (suc n) byte k e =
    byte % 2 ^ 8
    + 2 ^ 8 * (k % 2)
    + 2 ^ 9 * (e % 2)
    + 2 ^ 10 * rx_word n (byte / 2 ^ 8) (k / 2) (e / 2)

-- `txdata`
unfoldable pub tx_word : ℕ → Bool → Bool → ℕ → ℕ → ℕ
tx_word data_width square_wave produce_pattern tx_pattern prbs_o =
    if square_wave then 2 ^ (data_width / 2) - 1 else if produce_pattern then tx_pattern else prbs_o

-- `Cat(*[encoder.output[i] for i in range(nwords)])`, and the inputs of the decoders.
unfoldable pub join_codes : List ℕ → ℕ
join_codes [] = 0
join_codes (c ∷ cs) = c % 2 ^ 10 + 2 ^ 10 * join_codes cs

unfoldable pub decoder_inputs : ℕ → ℕ → List ℕ
decoder_inputs zero rxdata = []
decoder_inputs (suc n) rxdata = rxdata % 2 ^ 10 ∷ decoder_inputs n (rxdata / 2 ^ 10)

-- `add_stream_endpoints`: a lane of the sink, and the source.
pub record Symbol : Type 0 where
  pub k : ℕ
  pub d : ℕ

unfoldable pub sink_lanes : ℕ → ℕ → ℕ → List Symbol
sink_lanes zero ctrl stream = []
sink_lanes (suc n) ctrl stream =
    record { k = ctrl % 2; d = stream % 2 ^ 8 } ∷ sink_lanes n (ctrl / 2) (stream / 2 ^ 8)

unfoldable pub source_ctrl : List Symbol → ℕ
source_ctrl [] = 0
source_ctrl (x ∷ xs) = x.k % 2 + 2 * source_ctrl xs

unfoldable pub source_stream : List Symbol → ℕ
source_stream [] = 0
source_stream (x ∷ xs) = x.d % 2 ^ 8 + 2 ^ 8 * source_stream xs
