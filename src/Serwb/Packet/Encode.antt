-- ===== src/Serwb/Packet/Encode.antt =====
-- What the packetizer of liteiclink/serwb/packet.py sends for a stream of beats.
use liteiclink.Base.{
  ℕ, ◌+◌, ◌*◌, ◌≤◌, ◌^◌, ◌&&◌, List, [], ◌∷◌, ◌++◌, ◌≡◌, refl, arith, if◌then◌else◌, length,
  count_if, Slot, moves, sym, ap, ◌∙◌,
}
use mathlib.Core.List.{append-nil}
use liteiclink.Serwb.Packet.{
  Beat, preamble, u8, u16, PacketizerState, send_preamble, send_port_length, send_words,
  PacketizerIn, packetizer_out, packetizer_next,
}

-- A sender that keeps its beat until it is taken, and that holds `last` low where it does not present
-- it. The packetizer tests `last` without `valid`, and a `last` that is high in a gap would end the
-- packet: see Serwb.Serio for such a sender.
abbrev pub beat_in : Slot → Beat → PacketizerIn
beat_in p b = record {
  valid = p.present;
  beat = record b { last = p.present && b.last };
  ready = p.ready;
}

pub record Packetized : Type 0 where
  pub words : List ℕ
  pub state : PacketizerState
  pub left : List Beat

-- The packetizer over a sequence of slots. The sender keeps a beat until `sink.ready`.
abbrev pub packetize : PacketizerState → List Slot → List Beat → Packetized
packetize st [] bs = record { words = []; state = st; left = bs }
packetize st (p ∷ ps) [] = packetize st ps []
packetize st (p ∷ ps) (b ∷ bs) =
    let n = beat_in p b in
    let o = packetizer_out st n in
    let rest =
      packetize (packetizer_next st n) ps (if n.valid && o.sink_ready then bs else b ∷ bs) in
    if o.source_valid && p.ready then record rest { words = o.source_word ∷ rest.words } else rest

abbrev pub header : Beat → ℕ
header b = u8 b.port + u16 b.length * 2 ^ 8

-- The words that the beats stand for when the packetizer is in the given state: each packet is
-- its preamble, the header of its first beat, and its payload.
unfoldable pub encode : PacketizerState → List Beat → List ℕ
encode st [] = []
encode send_preamble (b ∷ bs) =
    preamble ∷ header b ∷ b.word ∷ encode (if b.last then send_preamble else send_words) bs
encode send_port_length (b ∷ bs) =
    header b ∷ b.word ∷ encode (if b.last then send_preamble else send_words) bs
encode send_words (b ∷ bs) = b.word ∷ encode (if b.last then send_preamble else send_words) bs

ruleset states = (send_preamble, send_port_length, send_words)

-- Over any gaps and stalls, the words that were sent, followed by those that the beats not yet
-- taken stand for, are the words that all the beats stand for.
pub packetize-encode :
    (st : PacketizerState) (ps : List Slot) (bs : List Beat)
    → let r = packetize st ps bs in r.words ++ encode r.state r.left ≡ encode st bs
unfolding encode packetizer_out packetizer_next
packetize-encode st [] bs = refl
packetize-encode st (p ∷ ps) [] = packetize-encode st ps []
packetize-encode send_preamble (p ∷ ps) (b ∷ bs) = ground (
  arith,
  packetize-encode send_preamble ps (b ∷ bs),
  packetize-encode send_port_length ps (b ∷ bs),
)
packetize-encode send_port_length (p ∷ ps) (b ∷ bs) =
    ground (
      arith,
      packetize-encode send_port_length ps (b ∷ bs),
      packetize-encode send_words ps (b ∷ bs),
    )
packetize-encode send_words (p ∷ ps) (b ∷ bs) = ground (
  arith,
  packetize-encode send_words ps (b ∷ bs),
  packetize-encode send_words ps bs,
  packetize-encode send_preamble ps bs,
)

-- As many slots without gap or stall as words to send are enough for every beat to be taken.
pub packetize-left :
    (st : PacketizerState) (ps : List Slot) (bs : List Beat)
    → length (encode st bs) ≤ count_if moves ps
    → (packetize st ps bs).left ≡ []
unfolding encode packetizer_out packetizer_next
packetize-left st [] [] h = refl
packetize-left send_preamble [] (b ∷ bs) h = absurd (omega arith)
packetize-left send_port_length [] (b ∷ bs) h = absurd (omega arith)
packetize-left send_words [] (b ∷ bs) h = absurd (omega arith)
packetize-left st (p ∷ ps) [] h = packetize-left st ps [] (ground arith)
packetize-left send_preamble (p ∷ ps) (b ∷ bs) h =
    ground
      (arith, packetize-left send_preamble ps (b ∷ bs), packetize-left send_port_length ps (b ∷ bs))
packetize-left send_port_length (p ∷ ps) (b ∷ bs) h =
    ground
      (arith, packetize-left send_port_length ps (b ∷ bs), packetize-left send_words ps (b ∷ bs))
packetize-left send_words (p ∷ ps) (b ∷ bs) h = ground (
  arith,
  packetize-left send_words ps (b ∷ bs),
  packetize-left send_words ps bs,
  packetize-left send_preamble ps bs,
)

pub packetize_all :
    (st : PacketizerState) (ps : List Slot) (bs : List Beat)
    → length (encode st bs) ≤ count_if moves ps
    → (packetize st ps bs).words ≡ encode st bs
unfolding encode
packetize_all st ps bs h =
    sym (append-nil _)
    ∙ ap (λ l. r.words ++ encode r.state l) (sym (packetize-left st ps bs h))
    ∙ packetize-encode st ps bs
  where
    r : Packetized
    r = packetize st ps bs
