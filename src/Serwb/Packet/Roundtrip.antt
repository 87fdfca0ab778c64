-- ===== src/Serwb/Packet/Roundtrip.antt =====
-- Packets through the two circuits of liteiclink/serwb/packet.py.
use liteiclink.Base.{
  ℕ, suc, ◌+◌, ◌*◌, ◌/◌, ◌<◌, ◌≤◌, ◌^◌, true, false, List, [], ◌∷◌, ◌++◌, ◌≡◌, refl, arith, length,
  count_if, Slot, moves, ap, ◌∙◌, All, ◌≢◌,
}
use liteiclink.Serwb.Packet.{
  Beat, preamble, u8, u16, send_preamble, send_words, Depacketizer, depacketizer_out,
  depacketizer_next, wait_preamble, pass_words,
}
use liteiclink.Serwb.Packet.Encode.{encode, packetize, packetize_all}
use liteiclink.Serwb.Packet.Decode.{decode, depacketize, depacketize_all}

-- A packet: its first word and the others.
pub record Packet : Type 0 where
  pub port : ℕ
  pub length : ℕ
  pub word : ℕ
  pub words : List ℕ

-- `port` and `length` fit their fields, and `length` counts the bytes of the payload.
pub record IsValid (p : Packet) : Type 0 where
  pub port_fits : p.port < 2 ^ 8
  pub length_fits : p.length < 2 ^ 16
  pub counted : length p.words + 1 ≡ p.length / 4

abbrev pub AllValid : List Packet → Type 0
AllValid [] = Unit
AllValid (p ∷ ps) = IsValid p × AllValid ps

abbrev pub payload_beats : ℕ → ℕ → ℕ → List ℕ → List Beat
payload_beats port len w [] = record { port = port; length = len; word = w; last = true } ∷ []
payload_beats port len w (x ∷ xs) =
    record { port = port; length = len; word = w; last = false } ∷ payload_beats port len x xs

abbrev pub packets_beats : List Packet → List Beat
packets_beats [] = []
packets_beats (p ∷ ps) = payload_beats p.port p.length p.word p.words ++ packets_beats ps

encode-payload :
    (port len w : ℕ) (xs : List ℕ) (bs : List Beat)
    → encode send_words (payload_beats port len w xs ++ bs) ≡ (w ∷ xs) ++ encode send_preamble bs
unfolding encode
encode-payload port len w [] bs = refl
encode-payload port len w (x ∷ xs) bs = ap (λ l. w ∷ l) (encode-payload port len x xs bs)

-- The depacketizer inside a packet, `count` words of it read.
abbrev pub inside : ℕ → ℕ → ℕ → Depacketizer
inside port len count = record { fsm = pass_words; port = port; count = count; length = len }

abbrev pub ended : ℕ → ℕ → ℕ → Depacketizer
ended port len count = record { fsm = wait_preamble; port = port; count = count; length = len }

pub decode-payload :
    (port len c w : ℕ) (xs rest : List ℕ)
    → len < 2 ^ 16
    → c + suc (length xs) ≡ len / 4
    → decode (inside port len c) ((w ∷ xs) ++ rest)
      ≡ payload_beats port len w xs ++ decode (ended port len (len / 4)) rest
unfolding decode depacketizer_out depacketizer_next
decode-payload port len c w [] rest h e = ground arith
decode-payload port len c w (x ∷ xs) rest h e =
    ground (arith, decode-payload port len (suc c) x xs rest h)

encode-packet :
    (port len w : ℕ) (xs : List ℕ) (bs : List Beat)
    → encode send_preamble (payload_beats port len w xs ++ bs)
      ≡ preamble ∷ (u8 port + u16 len * 2 ^ 8) ∷ (w ∷ xs) ++ encode send_preamble bs
unfolding encode
encode-packet port len w [] bs = refl
encode-packet port len w (x ∷ xs) bs =
    ap (λ l. preamble ∷ (u8 port + u16 len * 2 ^ 8) ∷ w ∷ l) (encode-payload port len x xs bs)

pub decode-header :
    (s : Depacketizer) (port len : ℕ) (rest : List ℕ)
    → s.fsm ≡ wait_preamble
    → port < 2 ^ 8
    → len < 2 ^ 16
    → decode s (preamble ∷ (u8 port + u16 len * 2 ^ 8) ∷ rest) ≡ decode (inside port len 0) rest
unfolding decode depacketizer_out depacketizer_next
decode-header s port len rest h p l = ground arith

-- The depacketizer reads back every beat of a sequence of valid packets, from any registers as
-- long as it waits for a preamble.
pub decode-encode :
    (s : Depacketizer) (ps : List Packet)
    → s.fsm ≡ wait_preamble
    → AllValid ps
    → decode s (encode send_preamble (packets_beats ps)) ≡ packets_beats ps
unfolding decode encode
decode-encode s [] h v = refl
decode-encode s (p ∷ ps) h (v, vs) =
    rw (encode-packet p.port p.length p.word p.words (packets_beats ps)) (
      decode-header s p.port p.length
        ((p.word ∷ p.words) ++ encode send_preamble (packets_beats ps)) h v.port_fits v.length_fits
      ∙ decode-payload p.port p.length 0 p.word p.words _ v.length_fits (omega (arith, v.counted))
      ∙ ap (λ l. payload_beats p.port p.length p.word p.words ++ l)
          (decode-encode (ended p.port p.length (p.length / 4)) ps refl vs))

-- Valid packets that are sent by the packetizer, from a sender that keeps its beat until it is taken
-- and holds `last` low in the gaps, come out of a depacketizer that waits for a preamble as the same
-- beats, whatever these gaps and the stalls on either side, while its timer does not expire, once
-- each side had as many slots without gap or stall as there are words.
pub depacketize-packetize :
    (s : Depacketizer) (ps : List Packet) (tx rx : List Slot)
    → s.fsm ≡ wait_preamble
    → AllValid ps
    → length (encode send_preamble (packets_beats ps)) ≤ count_if moves tx
    → length (encode send_preamble (packets_beats ps)) ≤ count_if moves rx
    → (depacketize s rx (packetize send_preamble tx (packets_beats ps)).words).beats
      ≡ packets_beats ps
depacketize-packetize s ps tx rx h v t r =
    ap (λ ws. (depacketize s rx ws).beats) sends
    ∙ depacketize_all s rx (encode send_preamble (packets_beats ps)) r
    ∙ decode-encode s ps h v
  where
    sends :
        (packetize send_preamble tx (packets_beats ps)).words
        ≡ encode send_preamble (packets_beats ps)
    sends = packetize_all send_preamble tx (packets_beats ps) t

-- A depacketizer that waits for a preamble drops every word in front of the first one.
pub decode-skip :
    (s : Depacketizer) (junk rest : List ℕ)
    → s.fsm ≡ wait_preamble
    → All (λ w. w ≢ preamble) junk
    → decode s (junk ++ rest) ≡ decode s rest
unfolding decode depacketizer_out depacketizer_next
decode-skip s [] rest h a = refl
decode-skip s (w ∷ ws) rest h (a, al) = ground (arith, decode-skip s ws rest h al)
