-- ===== src/Serwb/Genphy/Master.antt =====
-- `_SerdesMasterInit` of liteiclink/serwb/genphy.py.
pub mod Bounds
pub mod Align
use liteiclink.Base.{ℕ, ◌+◌, ◌-◌, ◌%◌, ◌^◌, Bool, true, false, ◌==◌, if◌then◌else◌}

pub data Fsm : Type 0 where
  idle reset_slave send_pattern wait_stable check_pattern inc_shift ready error : Fsm

-- The registers: the state of the FSM, and `shift`, a signal of 6 bits.
pub record Master : Type 0 where
  pub fsm : Fsm
  pub shift : ℕ

-- `timer.done`, `serdes.rx.idle` and `serdes.rx.comma`.
pub record Input : Type 0 where
  pub done : Bool
  pub rx_idle : Bool
  pub rx_comma : Bool

pub record Output : Type 0 where
  pub timer_wait : Bool
  pub tx_idle : Bool
  pub tx_comma : Bool
  pub rx_shift : Bool
  pub is_ready : Bool
  pub is_error : Bool

abbrev pub quiet : Output
quiet = record {
  timer_wait = false;
  tx_idle = false;
  tx_comma = false;
  rx_shift = false;
  is_ready = false;
  is_error = false;
}

abbrev pub reset : Master
reset = record { fsm = idle; shift = 0 }

-- `fsm.act`: the outputs in a state, and the registers after the cycle.
unfoldable pub act : Fsm → Master → Input → Output × Master
act idle s n = (record quiet { tx_idle = true }, record { fsm = reset_slave; shift = 0 })
act reset_slave s n =
    if n.done
    then (record quiet { tx_idle = true }, record s { fsm = send_pattern })
    else (record quiet { timer_wait = true; tx_idle = true }, s)
act send_pattern s n = if n.rx_idle then (record quiet { tx_comma = true }, s) else (
  record quiet { timer_wait = true; tx_comma = true },
  if n.done then record s { fsm = check_pattern } else s,
)
act wait_stable s n =
    if n.done
    then (record quiet { tx_comma = true }, record s { fsm = check_pattern })
    else (record quiet { timer_wait = true; tx_comma = true }, s)
act check_pattern s n =
    if n.rx_comma
    then (
      record quiet { timer_wait = true; tx_comma = true },
      if n.done then record s { fsm = ready } else s,
    )
    else (record quiet { tx_comma = true }, record s { fsm = inc_shift })
act inc_shift s n =
    if s.shift == 40 - 1 then (record quiet { tx_comma = true }, record s { fsm = error }) else (
      record quiet { rx_shift = true; tx_comma = true },
      record { fsm = wait_stable; shift = (s.shift + 1) % 2 ^ 6 },
    )
act ready s n = (record quiet { is_ready = true }, s)
act error s n = (record quiet { is_error = true }, s)

unfoldable pub out : Master → Input → Output
unfolding act
out s n = (act s.fsm s n).0

unfoldable pub next : Master → Input → Master
unfolding act
next s n = (act s.fsm s n).1
