-- ===== src/Serwb/Link/Gaps.antt =====
-- What the depacketizer of liteiclink/serwb/packet.py reads where SERWBPHY sends 0 for want of a word.
use liteiclink.Base.{
  ℕ, zero, suc, ◌+◌, ◌*◌, ◌/◌, ◌^◌, List, [], ◌∷◌, ◌++◌, ◌≡◌, ◌≢◌, refl, sym, arith, ap, ◌∙◌, All,
  length, length-append, Option, some, none, replicate,
}
use liteiclink.Serwb.Packet.{Depacketizer, wait_preamble, preamble, u8, u16}
use liteiclink.Serwb.Packet.Decode.{decode}
use liteiclink.Serwb.Packet.Roundtrip.{
  Packet, AllValid, IsValid, payload_beats, packets_beats, ended, decode-payload, decode-header,
  decode-skip,
}
use liteiclink.Serwb.Link.{PhyIn, Phy}
use liteiclink.Serwb.Link.Words
use liteiclink.Serwb.Link.Words.{IsUp, line, fill, line-fill}
use mathlib.Core.List.{append_assoc, append-nil}

-- The words of a packet, as the PHY is given them: without a gap.
abbrev pub packet_words : Packet → List ℕ
packet_words p = preamble ∷ (u8 p.port + u16 p.length * 2 ^ 8) ∷ p.word ∷ p.words

abbrev pub presented : List ℕ → List (Option ℕ)
presented [] = []
presented (w ∷ ws) = some w ∷ presented ws

-- Packets, with the number of gaps before each.
abbrev pub spaced : List (ℕ × Packet) → List (Option ℕ)
spaced [] = []
spaced ((k, p) ∷ ps) = replicate k none ++ (presented (packet_words p) ++ spaced ps)

abbrev pub the_packets : List (ℕ × Packet) → List Packet
the_packets [] = []
the_packets ((k, p) ∷ ps) = p ∷ the_packets ps

fill-gaps :
    (k : ℕ) (ws : List (Option ℕ)) → fill (replicate k none ++ ws) ≡ replicate k 0 ++ fill ws
fill-gaps zero ws = refl
fill-gaps (suc k) ws = ap (λ l. 0 ∷ l) (fill-gaps k ws)

fill-words : (xs : List ℕ) (ws : List (Option ℕ)) → fill (presented xs ++ ws) ≡ xs ++ fill ws
fill-words [] ws = refl
fill-words (x ∷ xs) ws = ap (λ l. x ∷ l) (fill-words xs ws)

fill-presented : (xs : List ℕ) → fill (presented xs) ≡ xs
fill-presented [] = refl
fill-presented (x ∷ xs) = ap (λ l. x ∷ l) (fill-presented xs)

zeros : (k : ℕ) → All (λ w. w ≢ preamble) (replicate k 0)
zeros zero = tt
zeros (suc k) = (omega arith, zeros k)

decode-packet :
    (s : Depacketizer) (p : Packet) (rest : List ℕ)
    → s.fsm ≡ wait_preamble
    → IsValid p
    → decode s (packet_words p ++ rest)
      ≡ payload_beats p.port p.length p.word p.words
        ++ decode (ended p.port p.length (p.length / 4)) rest
decode-packet s p rest h v =
    decode-header s p.port p.length ((p.word ∷ p.words) ++ rest) h v.port_fits v.length_fits
    ∙ decode-payload p.port p.length 0 p.word p.words rest v.length_fits (omega (arith, v.counted))

-- Gaps between packets do no harm: the depacketizer reads every beat of valid packets.
pub decode-spaced :
    (s : Depacketizer) (ps : List (ℕ × Packet))
    → s.fsm ≡ wait_preamble
    → AllValid (the_packets ps)
    → decode s (fill (spaced ps)) ≡ packets_beats (the_packets ps)
unfolding decode
decode-spaced s [] h v = refl
decode-spaced s ((k, p) ∷ ps) h (v, vs) =
    ap (decode s) (fill-gaps k (presented (packet_words p) ++ spaced ps))
    ∙ decode-skip s (replicate k 0) (fill (presented (packet_words p) ++ spaced ps)) h (zeros k)
    ∙ ap (decode s) (fill-words (packet_words p) (spaced ps))
    ∙ decode-packet s p (fill (spaced ps)) h v
    ∙ ap (λ l. payload_beats p.port p.length p.word p.words ++ l)
        (decode-spaced (ended p.port p.length (p.length / 4)) ps refl vs)

gap_decoded :
    (s : Depacketizer) (port len w : ℕ) (xs ys : List ℕ) (z : ℕ)
    → s.fsm ≡ wait_preamble
    → IsValid (record { port = port; length = len; word = w; words = xs ++ (ys ++ (z ∷ [])) })
    → z ≢ preamble
    → decode s (
        fill (
          presented (preamble ∷ (u8 port + u16 len * 2 ^ 8) ∷ w ∷ xs)
          ++ (none ∷ presented (ys ++ (z ∷ [])))))
      ≡ payload_beats port len w (xs ++ (0 ∷ ys))
unfolding decode
gap_decoded s port len w xs ys z h v n =
    let q : Packet = record { port = port; length = len; word = w; words = xs ++ (0 ∷ ys) } in
    let counted : length (xs ++ (0 ∷ ys)) + 1 ≡ len / 4 = omega (
      arith,
      v.counted,
      length-append xs (0 ∷ ys),
      length-append xs (ys ++ (z ∷ [])),
      length-append ys (z ∷ []),
    ) in
    ap (decode s) (
      fill-words (preamble ∷ (u8 port + u16 len * 2 ^ 8) ∷ w ∷ xs)
        (none ∷ presented (ys ++ (z ∷ [])))
      ∙ ap (λ l. preamble ∷ (u8 port + u16 len * 2 ^ 8) ∷ w ∷ (xs ++ (0 ∷ l)))
          (fill-presented (ys ++ (z ∷ [])))
      ∙ ap (λ l. preamble ∷ (u8 port + u16 len * 2 ^ 8) ∷ w ∷ l)
          (sym (append_assoc xs (0 ∷ ys) (z ∷ []))))
    ∙ decode-packet s q (z ∷ []) h
        (record { port_fits = v.port_fits; length_fits = v.length_fits; counted = counted })
    ∙ ap (λ l. payload_beats port len w (xs ++ (0 ∷ ys)) ++ l)
        (decode-skip (ended port len (len / 4)) (z ∷ []) [] refl (n, tt))
    ∙ append-nil (payload_beats port len w (xs ++ (0 ∷ ys)))

-- Over cycles in which the link is up and the sink of the PHY presents a valid packet with a gap,
-- behind its payload words `w` and `xs` and in front of `ys` and the last word `z`: the depacketizer
-- reads the words of the line as a packet with a payload word 0 at the gap, and without the last
-- word unless that is the preamble.
pub gap_corrupts :
    (p : Phy) (ns : List PhyIn) (s : Depacketizer) (port len w : ℕ) (xs ys : List ℕ) (z : ℕ)
    → All IsUp ns
    → Words.presented ns
      ≡ presented (preamble ∷ (u8 port + u16 len * 2 ^ 8) ∷ w ∷ xs)
        ++ (none ∷ presented (ys ++ (z ∷ [])))
    → s.fsm ≡ wait_preamble
    → IsValid (record { port = port; length = len; word = w; words = xs ++ (ys ++ (z ∷ [])) })
    → z ≢ preamble
    → decode s (line p ns) ≡ payload_beats port len w (xs ++ (0 ∷ ys))
gap_corrupts p ns s port len w xs ys z u e h v n =
    ap (decode s) ((line-fill p ns u).0 ∙ ap fill e) ∙ gap_decoded s port len w xs ys z h v n
