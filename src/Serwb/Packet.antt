-- ===== src/Serwb/Packet.antt =====
-- liteiclink/serwb/packet.py: the circuits that frame a stream of 32-bit words into packets.
pub mod Encode
pub mod Decode
pub mod Roundtrip
pub mod Timeout
use liteiclink.Base.{ℕ, ◌+◌, ◌-◌, ◌*◌, ◌/◌, ◌%◌, ◌^◌, Bool, true, false, ◌&&◌, ◌==◌, if◌then◌else◌}

-- A transfer of `packet_description(32)`: the parameters `port` (8 bits) and `length` (16 bits), the
-- payload and the marker of the last word.
pub record Beat : Type 0 where
  pub port : ℕ
  pub length : ℕ
  pub word : ℕ
  pub last : Bool

abbrev pub preamble : ℕ
preamble = 0x5aa55aa5

abbrev pub u8 : ℕ → ℕ
u8 n = n % 2 ^ 8

abbrev pub u16 : ℕ → ℕ
u16 n = n % 2 ^ 16

pub data PacketizerState : Type 0 where
  send_preamble send_port_length send_words : PacketizerState

pub record PacketizerIn : Type 0 where
  pub valid : Bool  -- sink.valid
  pub beat : Beat  -- sink.port, sink.length, sink.data, sink.last
  pub ready : Bool  -- source.ready

pub record PacketizerOut : Type 0 where
  pub source_valid : Bool
  pub source_word : ℕ
  pub sink_ready : Bool

unfoldable pub packetizer_out : PacketizerState → PacketizerIn → PacketizerOut
packetizer_out send_preamble n =
    if n.valid
    then record { source_valid = true; source_word = preamble; sink_ready = false }
    else record { source_valid = false; source_word = 0; sink_ready = false }
packetizer_out send_port_length n = record {
  source_valid = true;
  source_word = u8 n.beat.port + u16 n.beat.length * 2 ^ 8;
  sink_ready = false;
}
packetizer_out send_words n = record {
  source_valid = n.valid;
  source_word = n.beat.word;
  sink_ready = n.ready;
}

unfoldable pub packetizer_next : PacketizerState → PacketizerIn → PacketizerState
packetizer_next send_preamble n = if n.valid && n.ready then send_port_length else send_preamble
packetizer_next send_port_length n = if n.ready then send_words else send_port_length
packetizer_next send_words n = if n.ready && n.beat.last then send_preamble else send_words

pub data DepacketizerFsm : Type 0 where
  wait_preamble wait_port_length pass_words : DepacketizerFsm

-- The state of the FSM and the registers `port`, `count` and `length`.
pub record Depacketizer : Type 0 where
  pub fsm : DepacketizerFsm
  pub port : ℕ
  pub count : ℕ
  pub length : ℕ

pub record DepacketizerIn : Type 0 where
  pub valid : Bool  -- sink.valid
  pub word : ℕ  -- sink.data
  pub ready : Bool  -- source.ready
  pub done : Bool  -- timer.done

pub record DepacketizerOut : Type 0 where
  pub source_valid : Bool
  pub beat : Beat
  pub sink_ready : Bool
  pub timer_wait : Bool

abbrev no_beat : Beat
no_beat = record { port = 0; length = 0; word = 0; last = false }

-- `count == (length[2:] - 1)`, on 16 bits.
abbrev pub is_last : Depacketizer → Bool
is_last s = s.count == (s.length / 2 ^ 2 + (2 ^ 16 - 1)) % 2 ^ 16

depacketizer_out_at : DepacketizerFsm → Depacketizer → DepacketizerIn → DepacketizerOut
depacketizer_out_at wait_preamble s n = record {
  source_valid = false;
  beat = no_beat;
  sink_ready = true;
  timer_wait = false;
}
depacketizer_out_at wait_port_length s n = record {
  source_valid = false;
  beat = no_beat;
  sink_ready = true;
  timer_wait = true;
}
depacketizer_out_at pass_words s n = record {
  source_valid = n.valid;
  beat = record { port = s.port; length = s.length; word = n.word; last = is_last s };
  sink_ready = n.ready;
  timer_wait = true;
}

unfoldable pub depacketizer_out : Depacketizer → DepacketizerIn → DepacketizerOut
unfolding depacketizer_out_at
depacketizer_out s n = depacketizer_out_at s.fsm s n

depacketizer_next_at : DepacketizerFsm → Depacketizer → DepacketizerIn → Depacketizer
depacketizer_next_at wait_preamble s n =
    if n.valid && n.word == preamble then record s { fsm = wait_port_length } else s
depacketizer_next_at wait_port_length s n =
    if n.valid
    then record { fsm = pass_words; port = u8 n.word; count = 0; length = u16 (n.word / 2 ^ 8) }
    else s
depacketizer_next_at pass_words s n =
    if n.done
    then record s { fsm = wait_preamble }
    else (if n.valid && n.ready
        then record s {
          fsm = if is_last s then wait_preamble else pass_words;
          count = u16 (s.count + 1);
        }
        else s)

unfoldable pub depacketizer_next : Depacketizer → DepacketizerIn → Depacketizer
unfolding depacketizer_next_at
depacketizer_next s n = depacketizer_next_at s.fsm s n

abbrev pub depacketizer_reset : Depacketizer
depacketizer_reset = record { fsm = wait_preamble; port = 0; count = 0; length = 0 }
