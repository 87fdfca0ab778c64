-- ===== src/Examples/Serios.antt =====
-- Runs of the virtual IOs of liteiclink/serwb/core.py.
use liteiclink.Base.{Bool, true, false, List, [], ◌∷◌, ◌≡◌, refl, arith, Slot, replicate}
use liteiclink.Serwb.Packet.{depacketizer_reset, send_preamble, preamble}
use liteiclink.Serwb.Packet.Decode.{depacketize}
use liteiclink.Serwb.Serio.{serio_words, serio_output}
use liteiclink.Serwb.Serio.Delivery.{hold, taken, serio_delivers, serio_glitch}

abbrev free : List Slot
free = replicate 6 (record { present = true; ready = true })

abbrev stalls : List Bool
stalls = true ∷ false ∷ true ∷ true ∷ []

serio_delivers_example :
    serio_output 3
      (depacketize depacketizer_reset free
        (serio_words 1 (record { i_d = 3; state = send_preamble }) (hold 9 stalls))).beats
    ≡ 9
serio_delivers_example =
    serio_delivers 1 9 3 3 stalls depacketizer_reset free (omega arith) (omega arith) (omega arith)
      refl (omega arith)

-- A glitch from 3 to 9 and back, and then a change to 7, which does not arrive.
serio_glitch_example :
    serio_output 3
      (depacketize depacketizer_reset free (
        serio_words 1
          (record { i_d = 3; state = send_preamble })
          (taken 9 ∷ taken 9 ∷ taken 3 ∷ hold 7 stalls))).beats
    ≡ preamble
serio_glitch_example =
    serio_glitch 1 9 3 7 3 stalls depacketizer_reset free (omega arith) (omega arith) (omega arith)
      (omega arith) (omega arith) refl (omega arith)
