-- ===== src/Examples/Phys.antt =====
-- The data path of liteiclink/serwb, and the lanes and the DRP of liteiclink/serdes, at concrete
-- inputs.
use liteiclink.Base.{
  ℕ, ◌+◌, ◌^◌, ◌<◌, Bool, true, false, List, [], ◌∷◌, ◌++◌, ◌≡◌, refl, arith, length, count_if, ◌⊎◌,
  inl, inr, ap, ◌∙◌, sym, not, if◌then◌else◌, ◌==◌,
}
use liteiclink.Serwb.Datapath.{
  aligner_out, aligner_next, rx_out, AlignerIn, TxIn, tx_out, Flags, RxIn, flags_next, rx_wait,
}
use liteiclink.Serwb.Datapath.Aligner.{accepted, forwarded, shift_removes}
use liteiclink.Serwb.Datapath.Symbols.{line, flags-tx, taken, handed_on, words-handed_on, IsPlain}
use liteiclink.Serwb.Link.{PhyIn, generic, vendor}
use liteiclink.Serwb.Link.Words
use liteiclink.Serwb.Link.Words.{fill, line-fill, handed_on-arrived}
use liteiclink.Serwb.Link.Gaps.{gap_corrupts}
use liteiclink.Serwb.Packet.{depacketizer_reset, preamble}
use liteiclink.Serwb.Packet.Decode.{decode}
use liteiclink.Serwb.Packet.Roundtrip.{payload_beats}
use liteiclink.Serdes.Lanes.{Symbol, sink_lanes, source_ctrl, source_stream}
use liteiclink.Serdes.Lanes.Roundtrip
use liteiclink.Serdes.Lanes.Roundtrip.{Coder, lanes_roundtrip}

abbrev element : ℕ → AlignerIn
element e = record { shift_inc = false; valid = true; element = e; ready = true }

abbrev shift : AlignerIn
shift = record { shift_inc = true; valid = true; element = 2; ready = true }

abbrev before : List AlignerIn
before = element 1 ∷ []

abbrev after : List AlignerIn
after = element 3 ∷ element 4 ∷ []

shift_removes_example :
    (forwarded false (before ++ (shift ∷ after)) ≡ 1 ∷ 2 ∷ 4 ∷ [])
    × (accepted false (before ++ (shift ∷ after)) ≡ 1 ∷ 2 ∷ 3 ∷ 4 ∷ [])
unfolding aligner_out aligner_next
shift_removes_example = shift_removes before shift after (refl, tt) refl (refl, (refl, tt))

abbrev comma_in : TxIn 188 60
comma_in = record {
  idle = false;
  comma = true;
  wait = false;
  valid = true;
  k = 0;
  word = 7;
  ready = true;
}

abbrev no_flags : Flags 188 60
no_flags = record { idle_wait = false; comma = false }

flags-tx_example :
    let m = line 188 60 (tx_out 188 60 comma_in) true in
    (rx_wait 188 60 m ≡ false) × ((flags_next 188 60 no_flags m).comma ≡ true)
unfolding tx_out
flags-tx_example = flags-tx 188 60 no_flags comma_in true (omega arith) refl

abbrev plain_in : Bool → TxIn 188 60
plain_in w = record {
  idle = false;
  comma = false;
  wait = w;
  valid = true;
  k = 0;
  word = 7;
  ready = true;
}

abbrev symbol : ℕ → ℕ → RxIn 188 60
symbol k d = record { word_valid = false; word = 0; valid = true; k = k; d = d; ready = true }

plain : (w : Bool) → IsPlain 188 60 (plain_in w)
plain w = record { is_word = refl; not_idle = refl; not_comma = refl }

words-handed_on_example :
    handed_on 188 60 (symbol 0 7 ∷ symbol 1 60 ∷ symbol 0 7 ∷ [])
    ≡ taken 188 60 (plain_in false ∷ plain_in true ∷ plain_in false ∷ [])
unfolding tx_out rx_out rx_wait
words-handed_on_example =
    words-handed_on 188 60 (plain_in false ∷ plain_in true ∷ plain_in false ∷ [])
      (symbol 0 7 ∷ symbol 1 60 ∷ symbol 0 7 ∷ []) (plain false, (plain true, (plain false, tt)))
      refl

-- The link is up: a word to send or none, and a word that arrives, with the source ready or not.
abbrev cycle : Bool → Bool → PhyIn
cycle valid ready = record {
  init_ready = true;
  valid = valid;
  word = 5;
  tx_ready = true;
  rx_valid = true;
  rx_word = 6;
  ready = ready;
}

abbrev cycles : List PhyIn
cycles = cycle true true ∷ cycle false false ∷ cycle true true ∷ []

line-fill_example :
    (Words.line generic cycles ≡ fill (Words.presented cycles))
    × (Words.taken generic cycles ≡ Words.words_of (Words.presented cycles))
line-fill_example = line-fill generic cycles (refl, (refl, (refl, tt)))

handed_on-arrived_example :
    (Words.handed_on vendor cycles ≡ Words.arrived vendor cycles)
    × (length (Words.arrived generic cycles)
        ≡ length (Words.handed_on generic cycles) + count_if Words.is_lost cycles)
handed_on-arrived_example = handed_on-arrived cycles (refl, (refl, (refl, tt)))

-- A gap in front of the second of two words.
abbrev sends : ℕ → PhyIn
sends w = record (cycle true true) { word = w }

abbrev gapped : List PhyIn
gapped = sends preamble ∷ sends 0x801 ∷ sends 0x11 ∷ cycle false true ∷ sends 0x22 ∷ []

gap_corrupts_example :
    decode depacketizer_reset (Words.line vendor gapped) ≡ payload_beats 1 8 0x11 (0 ∷ [])
gap_corrupts_example =
    gap_corrupts vendor gapped depacketizer_reset 1 8 0x11 [] [] 0x22
      (refl, (refl, (refl, (refl, (refl, tt))))) refl refl (omega arith) (omega arith)

-- A coding that takes the control bit as bit 8.
-- K28.5, which turns the running disparity round, and D21.5, which has one code and does not.
abbrev k28_5 : Symbol
k28_5 = record { k = 1; d = 0xbc }

abbrev d21_5 : Symbol
d21_5 = record { k = 0; d = 0xb5 }

abbrev encode : Bool → Symbol → ℕ
encode rd x = if x.k == 1 then (if rd then 0b1010000011 else 0b0101111100) else 0b0101010101

abbrev decode_code : ℕ → Symbol
decode_code c = if c == 0b0101010101 then d21_5 else k28_5

decode-encode : (rd : Bool) (x : Symbol) → (x ≡ k28_5) ⊎ (x ≡ d21_5) → decode_code (encode rd x) ≡ x
decode-encode true x (inl e) = ap (λ y. decode_code (encode true y)) e ∙ sym e
decode-encode false x (inl e) = ap (λ y. decode_code (encode false y)) e ∙ sym e
decode-encode rd x (inr e) = ap (λ y. decode_code (encode rd y)) e ∙ sym e

encode-fits : (rd : Bool) (x : Symbol) → encode rd x < 2 ^ 10
encode-fits rd x = ground arith

-- The part of the 8b/10b code with these two symbols, least significant bit first.
abbrev coder : Coder
coder = record {
  encode = encode;
  after = λ rd x. if x.k == 1 then not rd else rd;
  decode = decode_code;
  IsCoded = λ x. (x ≡ k28_5) ⊎ (x ≡ d21_5);
  encode-fits = λ rd x. encode-fits rd x;
  decode-encode = λ rd x h. decode-encode rd x h;
}

lanes_roundtrip_example :
    let xs = Roundtrip.received coder 2 (Roundtrip.transmitted coder false 20 2 1 0xb5bc) in
    (source_ctrl xs ≡ 1) × (source_stream xs ≡ 0xb5bc)
unfolding sink_lanes
lanes_roundtrip_example =
    lanes_roundtrip coder false 20 2 1 0xb5bc (omega arith) (omega arith) (inl refl, (inr refl, tt))
