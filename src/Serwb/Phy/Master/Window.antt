-- ===== src/Serwb/Phy/Master/Window.antt =====
-- The sampling window that the master of liteiclink/serwb/phy.py settles on.
use liteiclink.Base.{
  ℕ, ◌+◌, ◌-◌, ◌/◌, ◌<◌, ◌≤◌, Bool, true, false, List, [], ◌∷◌, ◌≡◌, refl, arith, clock, clock_inv,
  if◌then◌else◌,
}
use liteiclink.Serwb.Phy.Taps.{inc_fits, window_lem}
use liteiclink.Serwb.Phy.Master.{
  Fsm, Master, Input, Output, reset, idle, reset_slave, send_pattern, wait_stable, check_pattern,
  inc_delay_shift, window, check_sampling_window, configure_sampling_window, ready, act, next, out,
  power_on,
}

-- Since the registers were cleared the search has gone on, and its window is still open.
abbrev pub searching : Fsm → Bool
searching reset_slave = true
searching send_pattern = true
searching wait_stable = true
searching check_pattern = true
searching inc_delay_shift = true
searching _ = false

-- Both ends of the window are known.
abbrev pub windowed : Fsm → Bool
windowed check_sampling_window = true
windowed configure_sampling_window = true
windowed ready = true
windowed _ = false

-- The window was found wide enough.
abbrev pub wide : Fsm → Bool
wide configure_sampling_window = true
wide ready = true
wide _ = false

abbrev pub middle : Master → ℕ
middle s = s.delay_min + (s.delay_max - s.delay_min) / 2

module _ (taps ratio : ℕ) where
  pub record Inv (s : Master) : Type 0 where
    pub delay_fits : s.delay < taps
    pub min_fits : s.delay_min < taps
    pub max_fits : s.delay_max < taps
    pub shift_fits : s.shift ≤ 39
    pub found_below : searching s.fsm ≡ true → s.delay_min_found ≡ true → s.delay_min ≤ s.delay
    pub ordered : windowed s.fsm ≡ true → s.delay_min ≤ s.delay_max
    pub wide_enough : wide s.fsm ≡ true → taps / 16 ≤ s.delay_max - s.delay_min
    pub configuring : wide s.fsm ≡ true → s.delay ≤ middle s
    pub centred : s.fsm ≡ ready → s.delay ≡ middle s

  act-Inv : (f : Fsm) (s : Master) (n : Input) → s.fsm ≡ f → Inv s → Inv (act taps ratio f s n).1
  unfolding act
  act-Inv reset s n e h = ground arith
  act-Inv idle s n e h = ground arith
  act-Inv inc_delay_shift s n e h = ground (arith, inc_fits s.delay taps)
  act-Inv check_sampling_window s n e h = ground (arith, window_lem s.delay_max s.delay_min taps)
  act-Inv configure_sampling_window s n e h =
      ground (arith, inc_fits s.delay taps, window_lem s.delay_max s.delay_min taps)
  act-Inv f s n e h = ground arith

  next-Inv : (s : Master) (n : Input) → Inv s → Inv (next taps ratio s n)
  unfolding next
  next-Inv s n h = act-Inv s.fsm s n refl h

  power_on-Inv : 0 < taps → Inv power_on
  power_on-Inv h = ground arith

-- The registers after any cycles from power-on.
abbrev pub run : ℕ → ℕ → List Input → Master
run taps ratio ns = clock (next taps ratio) power_on ns

run-Inv : (taps ratio : ℕ) (ns : List Input) → 0 < taps → Inv taps ratio (run taps ratio ns)
run-Inv taps ratio ns h =
    clock_inv (next taps ratio) (Inv taps ratio) (next-Inv taps ratio) power_on ns
      (power_on-Inv taps ratio h)

-- The tap at which the pulses leave a delay line: `delay_rst` takes it to the first tap, `delay_inc`
-- to the next.
abbrev pub moved : Output → ℕ → ℕ
moved o tap = if o.delay_rst then 0 else if o.delay_inc then tap + 1 else tap

module _ (taps ratio : ℕ) where
  -- The tap after a run in which the delay line follows the outputs.
  abbrev pub tap_after : ℕ → Master → List Input → ℕ
  tap_after tap s [] = tap
  tap_after tap s (n ∷ ns) = tap_after (moved (out taps ratio s n) tap) (next taps ratio s n) ns

  act-moved :
      (f : Fsm) (s : Master) (n : Input)
      → s.fsm ≡ f
      → Inv taps ratio s
      → moved (act taps ratio f s n).0 s.delay ≡ (act taps ratio f s n).1.delay
  unfolding act
  act-moved inc_delay_shift s n e h = ground (arith, inc_fits s.delay taps)
  act-moved configure_sampling_window s n e h =
      ground (arith, inc_fits s.delay taps, window_lem s.delay_max s.delay_min taps)
  act-moved f s n e h = ground arith

  follows :
      (s : Master) (ns : List Input)
      → Inv taps ratio s
      → tap_after s.delay s ns ≡ (clock (next taps ratio) s ns).delay
  unfolding next out
  follows s [] h = refl
  follows s (n ∷ ns) h =
      rw (act-moved s.fsm s n refl h) (follows (next taps ratio s n) ns (next-Inv taps ratio s n h))

  -- Whatever the line and the timer do after power-on: the register `delay` is the tap at which the
  -- pulses leave the delay line, which starts at its first tap and is never moved past its last.
  pub master_follows :
      (ns : List Input)
      → 0 < taps
      → (tap_after 0 power_on ns ≡ (run taps ratio ns).delay) × (tap_after 0 power_on ns < taps)
  master_follows ns h =
      let e = follows power_on ns (power_on-Inv taps ratio h) in
      (e, rw e (run-Inv taps ratio ns h).delay_fits)

-- Whatever the line and the timer did since power-on, where the window is measured or used its ends
-- are in order, so that their difference does not wrap.
pub master_ordered :
    (taps ratio : ℕ) (ns : List Input)
    → 0 < taps
    → windowed (run taps ratio ns).fsm ≡ true
    → let s = run taps ratio ns in
      (s.delay_min ≤ s.delay_max) × (window taps ratio s ≡ s.delay_max - s.delay_min)
master_ordered taps ratio ns h w =
    let inv = run-Inv taps ratio ns h in
    (
      inv.ordered w,
      window_lem (run taps ratio ns).delay_max (run taps ratio ns).delay_min taps (inv.ordered w)
          inv.max_fits,
    )

-- Whatever the line and the timer did since power-on, in the state READY the window that was found is at
-- least a sixteenth of the taps wide, and the delay stands in its middle.
pub master_centred :
    (taps ratio : ℕ) (ns : List Input)
    → 0 < taps
    → (run taps ratio ns).fsm ≡ ready
    → let s = run taps ratio ns in (s.delay ≡ middle s) × (s.delay_min + taps / 16 ≤ s.delay_max)
master_centred taps ratio ns h w = ground (arith, run-Inv taps ratio ns h)
