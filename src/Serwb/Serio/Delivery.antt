-- ===== src/Serwb/Serio/Delivery.antt =====
-- What the virtual IOs of liteiclink/serwb/core.py deliver.
use liteiclink.Base.{
  ℕ, ◌+◌, ◌*◌, ◌≤◌, ◌<◌, ◌^◌, Bool, true, false, List, [], ◌∷◌, ◌≡◌, ◌≢◌, arith, count_if, refl, ap,
  ◌∙◌, Slot, moves,
}
use liteiclink.Serwb.Packet.{
  send_preamble, send_port_length, send_words, preamble, u8, Depacketizer, wait_preamble,
  depacketizer_out, depacketizer_next,
}
use liteiclink.Serwb.Serio.{Serio, SerioIn, serio_words, serio_output}
use liteiclink.Serwb.Packet.Decode.{decode, depacketize, depacketize_all}
use liteiclink.Serwb.Packet.Encode.{encode}
use liteiclink.Serwb.Packet.Roundtrip.{Packet, decode-encode}

-- The inputs of cycles in which `i` is held.
abbrev pub hold : ℕ → List Bool → List SerioIn
hold i [] = []
hold i (r ∷ rs) = record { i = i; ready = r } ∷ hold i rs

abbrev pub is_true : Bool → Bool
is_true b = b

module _ (port i : ℕ) where
  abbrev settled : Serio
  settled = record { i_d = i; state = send_preamble }

  words-settled : (rs : List Bool) → serio_words port settled (hold i rs) ≡ []
  unfolding serio_words
  words-settled [] = refl
  words-settled (r ∷ rs) = ground (arith, words-settled rs)

  words-data :
      (d : ℕ) (rs : List Bool)
      → d ≢ i
      → 1 ≤ count_if is_true rs
      → serio_words port (record { i_d = d; state = send_words }) (hold i rs) ≡ i ∷ []
  unfolding serio_words
  words-data d [] n c = ground arith
  words-data d (true ∷ rs) n c = ground (arith, words-settled rs)
  words-data d (false ∷ rs) n c = ground (arith, words-data d rs)

  words-header :
      (d : ℕ) (rs : List Bool)
      → d ≢ i
      → 2 ≤ count_if is_true rs
      → serio_words port (record { i_d = d; state = send_port_length }) (hold i rs)
        ≡ (u8 port + 4 * 2 ^ 8) ∷ i ∷ []
  unfolding serio_words
  words-header d [] n c = ground arith
  words-header d (true ∷ rs) n c = ground (arith, words-data d rs)
  words-header d (false ∷ rs) n c = ground (arith, words-header d rs)

  words-preamble :
      (d : ℕ) (rs : List Bool)
      → d ≢ i
      → 3 ≤ count_if is_true rs
      → serio_words port (record { i_d = d; state = send_preamble }) (hold i rs)
        ≡ preamble ∷ (u8 port + 4 * 2 ^ 8) ∷ i ∷ []
  unfolding serio_words
  words-preamble d [] n c = ground arith
  words-preamble d (true ∷ rs) n c = ground (arith, words-header d rs)
  words-preamble d (false ∷ rs) n c = ground (arith, words-preamble d rs)

abbrev one_word : ℕ → ℕ → Packet
one_word port i = record { port = port; length = 4; word = i; words = [] }

-- With the packetizer at rest and a depacketizer that waits for a preamble: a change of `i` from
-- what was last sent to a value that is held until three words have gone arrives. With any stalls on
-- either side, from any output before, and while the timer of the depacketizer does not expire,
-- it and SERIODepacketizer end with that value on the output.
pub serio_delivers :
    (port i d o : ℕ) (rs : List Bool) (s : Depacketizer) (rx : List Slot)
    → port < 2 ^ 8
    → d ≢ i
    → 3 ≤ count_if is_true rs
    → s.fsm ≡ wait_preamble
    → 3 ≤ count_if moves rx
    → serio_output o
        (depacketize s rx
          (serio_words port (record { i_d = d; state = send_preamble }) (hold i rs))).beats
      ≡ i
unfolding serio_output encode
serio_delivers port i d o rs s rx p n c w r =
    ap (λ ws. serio_output o (depacketize s rx ws).beats) (words-preamble port i d rs n c)
    ∙ ap (serio_output o) (
        depacketize_all s rx (preamble ∷ (u8 port + 4 * 2 ^ 8) ∷ i ∷ []) r
        ∙ decode-encode s (one_word port i ∷ []) w
            (record { port_fits = p; length_fits = omega arith; counted = refl }, tt))

abbrev pub taken : ℕ → SerioIn
taken i = record { i = i; ready = true }

glitch-words :
    (port i d j : ℕ) (rs : List Bool)
    → d ≢ i
    → d ≢ j
    → 3 ≤ count_if is_true rs
    → serio_words port
        (record { i_d = d; state = send_preamble })
        (taken i ∷ taken i ∷ taken d ∷ hold j rs)
      ≡ preamble ∷ (u8 port + 4 * 2 ^ 8) ∷ preamble ∷ (u8 port + 4 * 2 ^ 8) ∷ j ∷ []
unfolding serio_words
glitch-words port i d j rs n m c = ground (arith, words-preamble port j d rs m c)

glitch-beats :
    (s : Depacketizer) (port j : ℕ)
    → port < 2 ^ 8
    → j ≢ preamble
    → s.fsm ≡ wait_preamble
    → decode s (preamble ∷ (u8 port + 4 * 2 ^ 8) ∷ preamble ∷ (u8 port + 4 * 2 ^ 8) ∷ j ∷ [])
      ≡ record { port = port; length = 4; word = preamble; last = true } ∷ []
unfolding decode depacketizer_out depacketizer_next
glitch-beats s port j p n w = ground arith

-- If `i` leaves the value `d` that was last sent and is back at it as the data should go, the header
-- stays without data: a next value `j` that is not the preamble is lost, and the output ends with
-- the preamble of its packet, with any stalls after the glitch and while the timer does not expire.
pub serio_glitch :
    (port i d j o : ℕ) (rs : List Bool) (s : Depacketizer) (rx : List Slot)
    → port < 2 ^ 8
    → d ≢ i
    → d ≢ j
    → j ≢ preamble
    → 3 ≤ count_if is_true rs
    → s.fsm ≡ wait_preamble
    → 5 ≤ count_if moves rx
    → serio_output o
        (depacketize s rx (
          serio_words port
            (record { i_d = d; state = send_preamble })
            (taken i ∷ taken i ∷ taken d ∷ hold j rs))).beats
      ≡ preamble
unfolding serio_output
serio_glitch port i d j o rs s rx p n m q c w r =
    ap (λ ws. serio_output o (depacketize s rx ws).beats) (glitch-words port i d j rs n m c)
    ∙ ap (serio_output o) (
        depacketize_all s rx
          (preamble ∷ (u8 port + 4 * 2 ^ 8) ∷ preamble ∷ (u8 port + 4 * 2 ^ 8) ∷ j ∷ []) r
        ∙ glitch-beats s port j p q w)
