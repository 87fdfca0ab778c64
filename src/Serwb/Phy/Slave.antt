-- ===== src/Serwb/Phy/Slave.antt =====
-- `_SerdesSlaveInit` of liteiclink/serwb/phy.py, for a receiver with `taps` delay taps and a clock
-- ratio of `ratio`.
pub mod Window
pub mod Livelock
pub mod Steps
pub mod Search
use liteiclink.Base.{
  ℕ, ◌+◌, ◌-◌, ◌/◌, ◌%◌, ◌^◌, Bool, true, false, not, ◌||◌, ◌==◌, ltb, if◌then◌else◌,
}

pub data Fsm : Type 0 where
  reset idle wait_stable check_pattern inc_delay_shift inc_phase_sel check_sampling_window
        configure_sampling_window send_pattern ready error :
      Fsm

-- The registers: the state of the FSM and the search. A signal with `max=taps` holds the values
-- below `taps`, a power of two; `shift` has 6 bits and `phase_sel` has 2.
pub record Slave : Type 0 where
  pub fsm : Fsm
  pub delay : ℕ
  pub delay_min : ℕ
  pub delay_min_found : Bool
  pub delay_max : ℕ
  pub delay_max_found : Bool
  pub shift : ℕ
  pub phase_sel : ℕ

-- `timer.done` and `serdes.rx.comma`.
pub record Input : Type 0 where
  pub done : Bool
  pub rx_comma : Bool

pub record Output : Type 0 where
  pub timer_wait : Bool
  pub delay_rst : Bool
  pub delay_inc : Bool
  pub shift_inc : Bool
  pub tx_idle : Bool
  pub tx_comma : Bool
  pub is_ready : Bool
  pub is_error : Bool

abbrev pub quiet : Output
quiet = record {
  timer_wait = false;
  delay_rst = false;
  delay_inc = false;
  shift_inc = false;
  tx_idle = false;
  tx_comma = false;
  is_ready = false;
  is_error = false;
}

abbrev idles : Output
idles = record quiet { tx_idle = true }

abbrev pub cleared : Fsm → ℕ → Slave
cleared f phase = record {
  fsm = f;
  delay = 0;
  delay_min = 0;
  delay_min_found = false;
  delay_max = 0;
  delay_max_found = false;
  shift = 0;
  phase_sel = phase;
}

abbrev pub power_on : Slave
power_on = cleared reset 0

module _ (taps ratio : ℕ) where
  -- `delay_max - delay_min`
  abbrev pub window : Slave → ℕ
  window s = (s.delay_max + taps - s.delay_min) % taps

  -- `fsm.act`: the outputs in a state, and the registers after the cycle.
  unfoldable pub act : Fsm → Slave → Input → Output × Slave
  act reset s n = (quiet, record s { fsm = idle; phase_sel = 0 })
  act idle s n =
      if n.done
      then (record idles { delay_rst = true }, cleared wait_stable s.phase_sel)
      else (record idles { delay_rst = true; timer_wait = true }, cleared idle s.phase_sel)
  act wait_stable s n =
      if n.done
      then (idles, record s { fsm = check_pattern })
      else (record idles { timer_wait = true }, s)
  act check_pattern s n =
      if not s.delay_min_found
      then (if n.rx_comma
          then (if n.done
              then (idles, record s { delay_min = s.delay; delay_min_found = true })
              else (record idles { timer_wait = true }, s))
          else (idles, record s { fsm = inc_delay_shift }))
      else (if not n.rx_comma || s.delay == taps - 1
          then (
            idles,
            record s { fsm = check_sampling_window; delay_max = s.delay; delay_max_found = true },
          )
          else (idles, record s { fsm = inc_delay_shift }))
  act inc_delay_shift s n =
      if s.delay == taps - 1
      then (if s.shift == 40 - 1
          then (record idles { delay_rst = true }, record s { fsm = inc_phase_sel; delay = 0 })
          else (
            record idles { delay_rst = true; shift_inc = true },
            record (cleared wait_stable s.phase_sel) { shift = (s.shift + 1) % 2 ^ 6 },
          ))
      else (
        record idles { delay_inc = true },
        record s { fsm = wait_stable; delay = (s.delay + 1) % taps },
      )
  act inc_phase_sel s n = (
    quiet,
    record s {
      fsm = if s.phase_sel == ratio - 1 then error else idle;
      phase_sel = (s.phase_sel + 1) % 2 ^ 2;
    },
  )
  act check_sampling_window s n =
      if ltb (window s) (taps / 16)
      then (idles, record s { fsm = wait_stable; delay_min_found = false; delay_max_found = false })
      else (
        record idles { delay_rst = true },
        record s { fsm = configure_sampling_window; delay = 0 },
      )
  act configure_sampling_window s n =
      if s.delay == s.delay_min + window s / 2
      then (idles, record s { fsm = send_pattern })
      else (record idles { delay_inc = true }, record s { delay = (s.delay + 1) % taps })
  act send_pattern s n = (
    record quiet { timer_wait = true; tx_comma = true },
    if n.done then (if n.rx_comma then s else record s { fsm = ready }) else s,
  )
  act ready s n = (record quiet { is_ready = true }, s)
  act error s n = (record quiet { is_error = true }, s)

  unfoldable pub out : Slave → Input → Output
  unfolding act
  out s n = (act s.fsm s n).0

  unfoldable pub next : Slave → Input → Slave
  unfolding act
  next s n = (act s.fsm s n).1
