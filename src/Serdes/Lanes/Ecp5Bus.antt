-- ===== src/Serdes/Lanes/Ecp5Bus.antt =====
-- The data path of SerDesECP5 in liteiclink/serdes/serdes_ecp5.py, for its 20 bits: two lanes of 10
-- bits on a bus of two times 12.
use liteiclink.Base.{
  All, Bool, ℕ, ◌+◌, ◌*◌, ◌/◌, ◌%◌, ◌^◌, ◌<◌, List, [], ◌∷◌, map, ◌≡◌, arith, ap, ◌∙◌,
}
use liteiclink.Serdes.Lanes.{
  tx_word, join_codes, decoder_inputs, Symbol, sink_lanes, source_ctrl, source_stream,
}
use liteiclink.Serdes.Lanes.Roundtrip.{
  Coder, codes, inputs-join, ctrl-sink, stream-sink, codes-All, decode-codes, transmitted,
}

-- `tx_bus` of `tx_data`, and `rx_data` of `rx_bus`.
unfoldable pub tx_bus : ℕ → ℕ
tx_bus t = t % 2 ^ 10 + 2 ^ 12 * (t / 2 ^ 10 % 2 ^ 10)

unfoldable pub rx_data : ℕ → ℕ
rx_data b = b % 2 ^ 10 + 2 ^ 10 * (b / 2 ^ 12 % 2 ^ 10)

rx_data-tx_bus : (t : ℕ) → t < 2 ^ 20 → rx_data (tx_bus t) ≡ t
unfolding tx_bus rx_data
rx_data-tx_bus t h = omega arith

join-lt : (a b : ℕ) → join_codes (a ∷ b ∷ []) < 2 ^ 20
unfolding join_codes
join-lt a b = omega arith

module _ (c : Coder) where
  abbrev pub bussed : Bool → ℕ → ℕ → List Symbol
  bussed rd ctrl stream =
      map c.decode (decoder_inputs 2 (rx_data (tx_bus (transmitted c rd 20 2 ctrl stream))))

  bussed-lanes :
      (rd : Bool) (ctrl stream : ℕ)
      → All c.IsCoded (sink_lanes 2 ctrl stream)
      → bussed rd ctrl stream ≡ sink_lanes 2 ctrl stream
  unfolding tx_word sink_lanes
  bussed-lanes rd ctrl stream a =
      let lanes = sink_lanes 2 ctrl stream in
      ap (λ t. map c.decode (decoder_inputs 2 t))
        (rx_data-tx_bus (join_codes (codes c rd lanes)) (join-lt _ _))
      ∙ ap (map c.decode) (inputs-join (codes c rd lanes) (codes-All c rd lanes))
      ∙ decode-codes c rd lanes a

  -- Where the bus of the receiver carries that of the transmitter, without a test pattern and where the
  -- symbols of the lanes have codes, the stream source of the ECP5 transceiver gives what the sink got.
  pub ecp5_bus_roundtrip :
      (rd : Bool) (ctrl stream : ℕ)
      → ctrl < 2 ^ 2
      → stream < 256 ^ 2
      → All c.IsCoded (sink_lanes 2 ctrl stream)
      → (source_ctrl (bussed rd ctrl stream) ≡ ctrl)
        × (source_stream (bussed rd ctrl stream) ≡ stream)
  ecp5_bus_roundtrip rd ctrl stream h g a =
      let e = bussed-lanes rd ctrl stream a in
      (
        ap source_ctrl e ∙ ctrl-sink 2 ctrl stream h,
        ap source_stream e ∙ stream-sink 2 ctrl stream g,
      )
