-- ===== src/Serdes/Lanes/Roundtrip.antt =====
-- What goes into the lanes of liteiclink/serdes/gtx_7series.py comes out of them.
use liteiclink.Base.{
  ℕ, zero, suc, ◌+◌, ◌*◌, ◌/◌, ◌%◌, ◌^◌, ◌<◌, Bool, false, List, [], ◌∷◌, ◌≡◌, refl, arith, ap, ap₂,
  ◌∙◌, sym, All, map, length,
}
use liteiclink.Serdes.Lanes.{
  tx_data, tx_dispval, tx_dispmode, rx_word, tx_word, join_codes, decoder_inputs, Symbol,
  sink_lanes, source_ctrl, source_stream,
}

-- The receiver's word, where its ports get the bits that the ports of the transmitter give.
abbrev pub looped : ℕ → ℕ → ℕ
looped n t = rx_word n (tx_data n t) (tx_dispval n t) (tx_dispmode n t)

low : (x y : ℕ) → (x % 2 ^ 10 + 2 ^ 10 * y) % 2 ^ 10 ≡ x % 2 ^ 10
low x y = omega arith

high : (x y : ℕ) → (x % 2 ^ 10 + 2 ^ 10 * y) / 2 ^ 10 ≡ y
high x y = omega arith

data_high : (x y : ℕ) → (x % 2 ^ 8 + 2 ^ 8 * y) / 2 ^ 8 ≡ y
data_high x y = omega arith

bit_high : (x y : ℕ) → (x % 2 + 2 * y) / 2 ≡ y
bit_high x y = omega arith

lane :
    (t a b c : ℕ)
    → (t % 2 ^ 8 + 2 ^ 8 * a) % 2 ^ 8
        + 2 ^ 8 * ((t / 2 ^ 8 % 2 + 2 * b) % 2)
        + 2 ^ 9 * ((t / 2 ^ 9 % 2 + 2 * c) % 2)
      ≡ t % 2 ^ 10
lane t a b c = omega arith

looped-suc : (n t : ℕ) → looped (suc n) t ≡ t % 2 ^ 10 + 2 ^ 10 * looped n (t / 2 ^ 10)
unfolding tx_data tx_dispval tx_dispmode rx_word
looped-suc n t =
    let byte = tx_data n (t / 2 ^ 10) in
    let value = tx_dispval n (t / 2 ^ 10) in
    let mode = tx_dispmode n (t / 2 ^ 10) in
    ap₂ (λ x y. x + 2 ^ 10 * y) (lane t byte value mode)
      (λ i.
        rx_word n (data_high t byte i) (bit_high (t / 2 ^ 8) value i) (bit_high (t / 2 ^ 9) mode i))

inputs-looped : (n t : ℕ) → decoder_inputs n (looped n t) ≡ decoder_inputs n t
unfolding decoder_inputs
inputs-looped zero t = refl
inputs-looped (suc n) t =
    let rest = looped n (t / 2 ^ 10) in
    ap (decoder_inputs (suc n)) (looped-suc n t)
    ∙ ap₂ (λ x y. x ∷ decoder_inputs n y) (low t rest) (high t rest)
    ∙ ap (λ y. t % 2 ^ 10 ∷ y) (inputs-looped n (t / 2 ^ 10))

pub inputs-join :
    (cs : List ℕ) → All (λ c. c < 2 ^ 10) cs → decoder_inputs (length cs) (join_codes cs) ≡ cs
unfolding decoder_inputs join_codes
inputs-join [] a = refl
inputs-join (c ∷ cs) (h, a) =
    let e : c % 2 ^ 10 ≡ c = omega arith in
    ap₂ (λ x y. x ∷ decoder_inputs (length cs) y) (low c (join_codes cs) ∙ e)
      (high c (join_codes cs))
    ∙ ap (λ y. c ∷ y) (inputs-join cs a)

pub ctrl-sink : (n ctrl stream : ℕ) → ctrl < 2 ^ n → source_ctrl (sink_lanes n ctrl stream) ≡ ctrl
unfolding source_ctrl sink_lanes
ctrl-sink zero ctrl stream h = omega arith
ctrl-sink (suc n) ctrl stream h =
    let e = ctrl-sink n (ctrl / 2) (stream / 2 ^ 8) (omega arith) in omega arith

pub stream-sink :
    (n ctrl stream : ℕ) → stream < 256 ^ n → source_stream (sink_lanes n ctrl stream) ≡ stream
unfolding source_stream sink_lanes
stream-sink zero ctrl stream h = omega arith
stream-sink (suc n) ctrl stream h =
    let e = stream-sink n (ctrl / 2) (stream / 2 ^ 8) (omega arith) in omega arith

-- The 8b/10b coder of LiteX: the code of a symbol under the running disparity, the disparity after it,
-- the symbol of a code, and which symbols have a code: all bytes, and only some control symbols.
pub record Coder : Type 1 where
  pub encode : Bool → Symbol → ℕ
  pub after : Bool → Symbol → Bool
  pub decode : ℕ → Symbol
  pub IsCoded : Symbol → Type 0
  pub encode-fits : (rd : Bool) (x : Symbol) → encode rd x < 2 ^ 10
  pub decode-encode : (rd : Bool) (x : Symbol) → IsCoded x → decode (encode rd x) ≡ x

module _ (c : Coder) where
  -- The codes of the lanes, each of which gets the disparity after the one before.
  abbrev pub codes : Bool → List Symbol → List ℕ
  codes rd [] = []
  codes rd (x ∷ xs) = c.encode rd x ∷ codes (c.after rd x) xs

  pub codes-All : (rd : Bool) (xs : List Symbol) → All (λ a. a < 2 ^ 10) (codes rd xs)
  codes-All rd [] = tt
  codes-All rd (x ∷ xs) = (c.encode-fits rd x, codes-All (c.after rd x) xs)

  pub length-codes :
      (rd : Bool) (n ctrl stream : ℕ) → length (codes rd (sink_lanes n ctrl stream)) ≡ n
  unfolding sink_lanes
  length-codes rd zero ctrl stream = refl
  length-codes rd (suc n) ctrl stream =
      let x : Symbol = record { k = ctrl % 2; d = stream % 2 ^ 8 } in
      ap suc (length-codes (c.after rd x) n (ctrl / 2) (stream / 2 ^ 8))

  pub decode-codes :
      (rd : Bool) (xs : List Symbol) → All c.IsCoded xs → map c.decode (codes rd xs) ≡ xs
  decode-codes rd [] a = refl
  decode-codes rd (x ∷ xs) (h, a) =
      ap₂ (λ y ys. y ∷ ys) (c.decode-encode rd x h) (decode-codes (c.after rd x) xs a)

  abbrev pub transmitted : Bool → ℕ → ℕ → ℕ → ℕ → ℕ
  transmitted rd data_width n ctrl stream =
      tx_word data_width false false 0 (join_codes (codes rd (sink_lanes n ctrl stream)))

  abbrev pub received : ℕ → ℕ → List Symbol
  received n t = map c.decode (decoder_inputs n (looped n t))

  received-transmitted :
      (rd : Bool) (data_width n ctrl stream : ℕ)
      → All c.IsCoded (sink_lanes n ctrl stream)
      → received n (transmitted rd data_width n ctrl stream) ≡ sink_lanes n ctrl stream
  unfolding tx_word
  received-transmitted rd data_width n ctrl stream a =
      let xs = sink_lanes n ctrl stream in
      let cs = codes rd xs in
      ap (map c.decode) (inputs-looped n (join_codes cs))
      ∙ ap (λ m. map c.decode (decoder_inputs m (join_codes cs)))
          (sym (length-codes rd n ctrl stream))
      ∙ ap (map c.decode) (inputs-join cs (codes-All rd xs))
      ∙ decode-codes rd xs a

  -- Without a test pattern, where the symbols of the lanes have codes and the receiver's ports get the
  -- bits of the transmitter's, the stream source gives the `ctrl` and the data that the sink got,
  -- whatever the running disparity is.
  pub lanes_roundtrip :
      (rd : Bool) (data_width n ctrl stream : ℕ)
      → ctrl < 2 ^ n
      → stream < 256 ^ n
      → All c.IsCoded (sink_lanes n ctrl stream)
      → (source_ctrl (received n (transmitted rd data_width n ctrl stream)) ≡ ctrl)
        × (source_stream (received n (transmitted rd data_width n ctrl stream)) ≡ stream)
  lanes_roundtrip rd data_width n ctrl stream h g a =
      let e = received-transmitted rd data_width n ctrl stream a in
      (
        ap source_ctrl e ∙ ctrl-sink n ctrl stream h,
        ap source_stream e ∙ stream-sink n ctrl stream g,
      )
