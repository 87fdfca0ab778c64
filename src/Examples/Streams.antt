-- ===== src/Examples/Streams.antt =====
-- Runs of liteiclink/serwb/scrambler.py, packet.py and the PRBS checker.
use liteiclink.Base.{
  ◌%◌, Bool, true, false, List, [], ◌∷◌, ◌≡◌, refl, arith, count_if, Within, replicate, clock, Slot,
  countdown, ◌==◌,
}
use liteiclink.Serwb.Scrambler.{
  Word, ScramblerIn, is_sync, scrambler_out, scrambler_next, scrambler_reset, sync_interval,
}
use liteiclink.Serwb.Scrambler.Recover.{sent, accepted, drive, drive_recovers}
use liteiclink.Serwb.Scrambler.Cadence.{sync_cadence}
use liteiclink.Serwb.Packet.{
  depacketizer_reset, wait_preamble, wait_port_length, send_preamble, pass_words,
}
use liteiclink.Serwb.Packet.Encode.{encode, packetize}
use liteiclink.Serwb.Packet.Decode.{depacketize}
use liteiclink.Serwb.Packet.Roundtrip.{Packet, AllValid, packets_beats, depacketize-packetize}
use liteiclink.Serwb.Packet.Timeout.{Timed, Input, timed_next, timeout-Within}

abbrev ones : Word
ones = replicate 32 true

abbrev offer : ScramblerIn
offer = record { valid = true; word = ones; ready = true }

abbrev stall : ScramblerIn
stall = record { valid = true; word = ones; ready = false }

abbrev gap : ScramblerIn
gap = record { valid = false; word = ones; ready = true }

abbrev words_in : List ScramblerIn
words_in = offer ∷ stall ∷ offer ∷ gap ∷ offer ∷ []

abbrev slot : Bool → Bool → Slot
slot p r = record { present = p; ready = r }

abbrev slots : List Slot
slots =
    slot true true
    ∷ slot false true
    ∷ slot true false
    ∷ slot true true
    ∷ slot true true
    ∷ slot true true
    ∷ []

-- The words that the scrambler takes in: nothing in the SYNC cycle and the stall, zeros in the gap.
accepted_words : accepted scrambler_reset words_in ≡ ones ∷ replicate 32 false ∷ ones ∷ []
unfolding scrambler_next scrambler_out
accepted_words = refl

drive_recovers_example :
    ((drive (replicate 23 true) slots (sent scrambler_reset words_in)).words
      ≡ accepted scrambler_reset words_in)
    × ((drive (replicate 23 true) slots (sent scrambler_reset words_in)).left ≡ [])
unfolding scrambler_next scrambler_out
drive_recovers_example =
    drive_recovers (replicate 23 true) scrambler_reset words_in slots refl (omega arith)

sync_cadence_example :
    is_sync (scrambler_out (clock scrambler_next scrambler_reset words_in) offer).symbol
    ≡ (count_if (λ i. i.ready) words_in % sync_interval == 0)
sync_cadence_example = sync_cadence words_in offer

abbrev packets : List Packet
packets =
    record { port = 1; length = 8; word = 0x11; words = 0x5aa55aa5 ∷ [] }
    ∷ record { port = 0; length = 4; word = 0x22; words = [] }
    ∷ []

packets-AllValid : AllValid packets
packets-AllValid = omega arith

abbrev busy : List Slot
busy = slot false true ∷ slot true false ∷ replicate 9 (slot true true)

depacketize-packetize_example :
    (depacketize depacketizer_reset busy
      (packetize send_preamble busy (packets_beats packets)).words).beats
    ≡ packets_beats packets
unfolding encode
depacketize-packetize_example =
    depacketize-packetize depacketizer_reset packets busy busy refl packets-AllValid (omega arith)
      (omega arith)

-- A packet whose second word never arrives, with two cycles left on the timer.
abbrev waiting : Timed (countdown 5)
waiting = record { core = record { fsm = pass_words; port = 0; count = 1; length = 8 }; timer = 2 }

abbrev silence : List Input
silence = replicate 3 (record { valid = false; word = 0; ready = true })

timeout-Within_example :
    Within (timed_next (countdown 5)) waiting silence (λ t. t.core.fsm ≡ wait_preamble)
timeout-Within_example = timeout-Within (countdown 5) waiting silence refl (omega arith)

-- A preamble has come and no header.
abbrev headless : Timed (countdown 5)
headless = record {
  core = record { fsm = wait_port_length; port = 0; count = 0; length = 0 };
  timer = 5;
}

abbrev long_silence : List Input
long_silence = replicate 9 (record { valid = false; word = 0; ready = true })
