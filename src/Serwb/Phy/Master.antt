-- ===== src/Serwb/Phy/Master.antt =====
-- `_SerdesMasterInit` of liteiclink/serwb/phy.py, for a receiver with `taps` delay taps and a clock
-- ratio of `ratio`.
pub mod Window
pub mod Livelock
pub mod Steps
pub mod Search
use liteiclink.Base.{
  ℕ, ◌+◌, ◌-◌, ◌/◌, ◌%◌, ◌^◌, Bool, true, false, not, ◌||◌, ◌==◌, ltb, if◌then◌else◌,
}

pub data Fsm : Type 0 where
  reset idle reset_slave send_pattern wait_stable check_pattern inc_delay_shift inc_phase_sel
        check_sampling_window configure_sampling_window ready error :
      Fsm

-- The registers: the state of the FSM and the search. A signal with `max=taps` holds the values
-- below `taps`, a power of two; `shift` has 6 bits and `phase_sel` has 2.
pub record Master : Type 0 where
  pub fsm : Fsm
  pub delay : ℕ
  pub delay_min : ℕ
  pub delay_min_found : Bool
  pub delay_max : ℕ
  pub delay_max_found : Bool
  pub shift : ℕ
  pub phase_sel : ℕ

-- `timer.done`, `serdes.rx.idle` and `serdes.rx.comma`.
pub record Input : Type 0 where
  pub done : Bool
  pub rx_idle : Bool
  pub rx_comma : Bool

pub record Output : Type 0 where
  pub timer_wait : Bool
  pub delay_rst : Bool
  pub delay_inc : Bool
  pub shift_inc : Bool
  pub tx_idle : Bool
  pub tx_comma : Bool
  pub is_ready : Bool
  pub is_error : Bool

abbrev pub quiet : Output
quiet = record {
  timer_wait = false;
  delay_rst = false;
  delay_inc = false;
  shift_inc = false;
  tx_idle = false;
  tx_comma = false;
  is_ready = false;
  is_error = false;
}

abbrev commas : Output
commas = record quiet { tx_comma = true }

abbrev pub cleared : Fsm → ℕ → Master
cleared f phase = record {
  fsm = f;
  delay = 0;
  delay_min = 0;
  delay_min_found = false;
  delay_max = 0;
  delay_max_found = false;
  shift = 0;
  phase_sel = phase;
}

abbrev pub power_on : Master
power_on = cleared reset 0

module _ (taps ratio : ℕ) where
  -- `delay_max - delay_min`
  abbrev pub window : Master → ℕ
  window s = (s.delay_max + taps - s.delay_min) % taps

  -- `fsm.act`: the outputs in a state, and the registers after the cycle.
  unfoldable pub act : Fsm → Master → Input → Output × Master
  act reset s n = (quiet, record s { fsm = idle; phase_sel = 0 })
  act idle s n =
      (record quiet { delay_rst = true; tx_idle = true }, cleared reset_slave s.phase_sel)
  act reset_slave s n =
      if n.done
      then (record quiet { tx_idle = true }, record s { fsm = send_pattern })
      else (record quiet { timer_wait = true; tx_idle = true }, s)
  act send_pattern s n = if n.rx_idle then (commas, s) else (
    record commas { timer_wait = true },
    if n.done then record s { fsm = check_pattern } else s,
  )
  act wait_stable s n =
      if n.done
      then (commas, record s { fsm = check_pattern })
      else (record commas { timer_wait = true }, s)
  act check_pattern s n =
      if not s.delay_min_found
      then (if n.rx_comma
          then (if n.done
              then (commas, record s { delay_min = s.delay; delay_min_found = true })
              else (record commas { timer_wait = true }, s))
          else (commas, record s { fsm = inc_delay_shift }))
      else (if not n.rx_comma || s.delay == taps - 1
          then (
            commas,
            record s { fsm = check_sampling_window; delay_max = s.delay; delay_max_found = true },
          )
          else (commas, record s { fsm = inc_delay_shift }))
  act inc_delay_shift s n =
      if s.delay == taps - 1
      then (if s.shift == 40 - 1
          then (record commas { delay_rst = true }, record s { fsm = inc_phase_sel; delay = 0 })
          else (
            record commas { delay_rst = true; shift_inc = true },
            record (cleared wait_stable s.phase_sel) { shift = (s.shift + 1) % 2 ^ 6 },
          ))
      else (
        record commas { delay_inc = true },
        record s { fsm = wait_stable; delay = (s.delay + 1) % taps },
      )
  act inc_phase_sel s n = (
    quiet,
    record s {
      fsm = if s.phase_sel == ratio - 1 then error else idle;
      phase_sel = (s.phase_sel + 1) % 2 ^ 2;
    },
  )
  act check_sampling_window s n =
      if ltb (window s) (taps / 16)
      then (
        commas,
        record s { fsm = wait_stable; delay_min_found = false; delay_max_found = false },
      )
      else (
        record commas { delay_rst = true },
        record s { fsm = configure_sampling_window; delay = 0 },
      )
  act configure_sampling_window s n =
      if s.delay == s.delay_min + window s / 2
      then (commas, record s { fsm = ready })
      else (record commas { delay_inc = true }, record s { delay = (s.delay + 1) % taps })
  act ready s n = (record quiet { is_ready = true }, s)
  act error s n = (record quiet { is_error = true }, s)

  unfoldable pub out : Master → Input → Output
  unfolding act
  out s n = (act s.fsm s n).0

  unfoldable pub next : Master → Input → Master
  unfolding act
  next s n = (act s.fsm s n).1
