-- ===== src/Serwb/Phy/Slave/Window.antt =====
-- The sampling window that the slave of liteiclink/serwb/phy.py settles on.
use liteiclink.Base.{
  ℕ, ◌+◌, ◌-◌, ◌/◌, ◌<◌, ◌≤◌, Bool, true, false, List, ◌≡◌, refl, arith, clock, clock_inv,
}
use liteiclink.Serwb.Phy.Taps.{inc_fits, window_lem}
use liteiclink.Serwb.Phy.Slave.{
  Fsm, Slave, Input, reset, idle, send_pattern, wait_stable, check_pattern, inc_delay_shift, window,
  check_sampling_window, configure_sampling_window, ready, act, next, power_on,
}

-- Since the registers were cleared the search has gone on, and its window is still open.
abbrev pub searching : Fsm → Bool
searching wait_stable = true
searching check_pattern = true
searching inc_delay_shift = true
searching _ = false

-- Both ends of the window are known.
abbrev pub windowed : Fsm → Bool
windowed check_sampling_window = true
windowed configure_sampling_window = true
windowed send_pattern = true
windowed ready = true
windowed _ = false

-- The window was found wide enough.
abbrev pub wide : Fsm → Bool
wide configure_sampling_window = true
wide send_pattern = true
wide ready = true
wide _ = false

-- The delay is set.
abbrev pub settled : Fsm → Bool
settled send_pattern = true
settled ready = true
settled _ = false

abbrev pub middle : Slave → ℕ
middle s = s.delay_min + (s.delay_max - s.delay_min) / 2

module _ (taps ratio : ℕ) where
  pub record Inv (s : Slave) : Type 0 where
    pub delay_fits : s.delay < taps
    pub min_fits : s.delay_min < taps
    pub max_fits : s.delay_max < taps
    pub shift_fits : s.shift ≤ 39
    pub found_below : searching s.fsm ≡ true → s.delay_min_found ≡ true → s.delay_min ≤ s.delay
    pub ordered : windowed s.fsm ≡ true → s.delay_min ≤ s.delay_max
    pub wide_enough : wide s.fsm ≡ true → taps / 16 ≤ s.delay_max - s.delay_min
    pub configuring : wide s.fsm ≡ true → s.delay ≤ middle s
    pub centred : settled s.fsm ≡ true → s.delay ≡ middle s

  act-Inv : (f : Fsm) (s : Slave) (n : Input) → s.fsm ≡ f → Inv s → Inv (act taps ratio f s n).1
  unfolding act
  act-Inv reset s n e h = ground arith
  act-Inv idle s n e h = ground arith
  act-Inv inc_delay_shift s n e h = ground (arith, inc_fits s.delay taps)
  act-Inv check_sampling_window s n e h = ground (arith, window_lem s.delay_max s.delay_min taps)
  act-Inv configure_sampling_window s n e h =
      ground (arith, inc_fits s.delay taps, window_lem s.delay_max s.delay_min taps)
  act-Inv f s n e h = ground arith

  next-Inv : (s : Slave) (n : Input) → Inv s → Inv (next taps ratio s n)
  unfolding next
  next-Inv s n h = act-Inv s.fsm s n refl h

  power_on-Inv : 0 < taps → Inv power_on
  power_on-Inv h = ground arith

-- The registers after any cycles from power-on.
abbrev pub run : ℕ → ℕ → List Input → Slave
run taps ratio ns = clock (next taps ratio) power_on ns

run-Inv : (taps ratio : ℕ) (ns : List Input) → 0 < taps → Inv taps ratio (run taps ratio ns)
run-Inv taps ratio ns h =
    clock_inv (next taps ratio) (Inv taps ratio) (next-Inv taps ratio) power_on ns
      (power_on-Inv taps ratio h)

-- Whatever the line and the timer do after power-on, the delay and the two ends of the window stay
-- below the number of taps and the shift at 39 or less.
pub slave_bounded :
    (taps ratio : ℕ) (ns : List Input)
    → 0 < taps
    → let s = run taps ratio ns in
      (s.delay < taps) × (s.delay_min < taps) × (s.delay_max < taps) × (s.shift ≤ 39)
slave_bounded taps ratio ns h = omega (arith, run-Inv taps ratio ns h)

-- Whatever the line and the timer did since power-on, where the window is measured or used its ends
-- are in order, so that their difference does not wrap.
pub slave_ordered :
    (taps ratio : ℕ) (ns : List Input)
    → 0 < taps
    → windowed (run taps ratio ns).fsm ≡ true
    → let s = run taps ratio ns in
      (s.delay_min ≤ s.delay_max) × (window taps ratio s ≡ s.delay_max - s.delay_min)
slave_ordered taps ratio ns h w =
    let inv = run-Inv taps ratio ns h in
    (
      inv.ordered w,
      window_lem (run taps ratio ns).delay_max (run taps ratio ns).delay_min taps (inv.ordered w)
          inv.max_fits,
    )

-- Whatever the line and the timer did since power-on, in the states SEND-PATTERN and READY the window that was found is at
-- least a sixteenth of the taps wide, and the delay stands in its middle.
pub slave_centred :
    (taps ratio : ℕ) (ns : List Input)
    → 0 < taps
    → settled (run taps ratio ns).fsm ≡ true
    → let s = run taps ratio ns in (s.delay ≡ middle s) × (s.delay_min + taps / 16 ≤ s.delay_max)
slave_centred taps ratio ns h w = ground (arith, run-Inv taps ratio ns h)
