-- ===== src/Serwb/Genphy/Slave.antt =====
-- `_SerdesSlaveInit` of liteiclink/serwb/genphy.py.
pub mod Bounds
pub mod Align
use liteiclink.Base.{ℕ, ◌+◌, ◌-◌, ◌%◌, ◌^◌, Bool, true, false, ◌==◌, if◌then◌else◌}

pub data Fsm : Type 0 where
  idle wait_stable check_pattern inc_shift send_pattern ready error : Fsm

-- The registers: the state of the FSM, and `shift`, a signal of 6 bits.
pub record Slave : Type 0 where
  pub fsm : Fsm
  pub shift : ℕ

-- `timer.done` and `serdes.rx.comma`.
pub record Input : Type 0 where
  pub done : Bool
  pub rx_comma : Bool

pub record Output : Type 0 where
  pub timer_wait : Bool
  pub tx_idle : Bool
  pub tx_comma : Bool
  pub rx_shift : Bool
  pub is_ready : Bool
  pub is_error : Bool

abbrev pub quiet : Output
quiet = record {
  timer_wait = false;
  tx_idle = false;
  tx_comma = false;
  rx_shift = false;
  is_ready = false;
  is_error = false;
}

abbrev pub reset : Slave
reset = record { fsm = idle; shift = 0 }

-- `fsm.act`: the outputs in a state, and the registers after the cycle.
unfoldable pub act : Fsm → Slave → Input → Output × Slave
act idle s n =
    if n.done
    then (record quiet { tx_idle = true }, record { fsm = wait_stable; shift = 0 })
    else (record quiet { timer_wait = true; tx_idle = true }, record s { shift = 0 })
act wait_stable s n =
    if n.done
    then (record quiet { tx_idle = true }, record s { fsm = check_pattern })
    else (record quiet { timer_wait = true; tx_idle = true }, s)
act check_pattern s n =
    if n.rx_comma
    then (
      record quiet { timer_wait = true; tx_idle = true },
      if n.done then record s { fsm = send_pattern } else s,
    )
    else (record quiet { tx_idle = true }, record s { fsm = inc_shift })
act inc_shift s n =
    if s.shift == 40 - 1 then (record quiet { tx_idle = true }, record s { fsm = error }) else (
      record quiet { rx_shift = true; tx_idle = true },
      record { fsm = wait_stable; shift = (s.shift + 1) % 2 ^ 6 },
    )
act send_pattern s n = (
  record quiet { timer_wait = true; tx_comma = true },
  if n.done then (if n.rx_comma then s else record s { fsm = ready }) else s,
)
act ready s n = (record quiet { is_ready = true }, s)
act error s n = (record quiet { is_error = true }, s)

unfoldable pub out : Slave → Input → Output
unfolding act
out s n = (act s.fsm s n).0

unfoldable pub next : Slave → Input → Slave
unfolding act
next s n = (act s.fsm s n).1
