-- ===== src/Serwb/Phy/Master/Livelock.antt =====
-- Lines on which the master of liteiclink/serwb/phy.py searches for ever.
use liteiclink.Base.{
  ℕ, ◌+◌, ◌-◌, ◌/◌, ◌<◌, ◌≤◌, Bool, true, false, List, ◌≡◌, refl, arith, leb, clock, clock_inv,
}
use liteiclink.Serwb.Phy.Master.{
  Fsm, Master, Input, reset, inc_delay_shift, inc_phase_sel, check_sampling_window,
  configure_sampling_window, ready, error, act, next, out, power_on,
}
use liteiclink.Serwb.Phy.Taps.{inc_fits, window_lem}

-- What the environment chooses in a cycle; commas are seen at the delays from `from` on.
pub record Choice : Type 0 where
  pub done : Bool
  pub rx_idle : Bool

module _ (taps ratio from : ℕ) where
  abbrev pub seen : Master → Choice → Input
  seen s c = record { done = c.done; rx_idle = c.rx_idle; rx_comma = leb from s.delay }

  abbrev pub line_next : Master → Choice → Master
  line_next s c = next taps ratio s (seen s c)

  -- The states of the search before its first shift.
  abbrev early : Fsm → Bool
  early inc_phase_sel = false
  early configure_sampling_window = false
  early ready = false
  early error = false
  early _ = true

  record Searching (s : Master) : Type 0 where
    is_early : early s.fsm ≡ true
    delay_fits : s.delay < taps
    first_shift : s.shift ≡ 0
    steps_on : s.fsm ≡ inc_delay_shift → s.delay < taps - 1
    found_late : s.delay_min_found ≡ true → from ≤ s.delay_min
    found_below : s.delay_min_found ≡ true → s.delay_min ≤ s.delay
    window_late :
        s.fsm ≡ check_sampling_window
        → (from ≤ s.delay_min) × (s.delay_min ≤ s.delay_max) × (s.delay_max < taps)

  act-Searching :
      (f : Fsm) (s : Master) (c : Choice)
      → s.fsm ≡ f
      → from < taps
      → taps < from + taps / 16 + 1
      → Searching s
      → Searching (act taps ratio f s (seen s c)).1
  unfolding act
  act-Searching reset s c e l w h = ground arith
  act-Searching inc_delay_shift s c e l w h = ground (arith, inc_fits s.delay taps)
  act-Searching check_sampling_window s c e l w h =
      ground (arith, window_lem s.delay_max s.delay_min taps)
  act-Searching f s c e l w h = ground arith

  line_next-Searching :
      from < taps
      → taps < from + taps / 16 + 1
      → (s : Master) (c : Choice) → Searching s
      → Searching (line_next s c)
  unfolding next
  line_next-Searching l w s c h = act-Searching s.fsm s c refl l w h

  early-out :
      (s : Master) (n : Input)
      → early s.fsm ≡ true
      → ((out taps ratio s n).is_ready ≡ false) × ((out taps ratio s n).is_error ≡ false)
  unfolding out
  early-out s n h = ground arith

  -- If at the first shift commas are seen exactly at the delays from `from` on, and fewer delays
  -- than a sixteenth of the taps lie between `from` and the last one, then the master is never
  -- ready and never in error, whatever the timer does and however long it runs from power-on: it
  -- rejects the window and measures the same one again, at the last delay.
  pub master_livelocks :
      (cs : List Choice) (c : Choice)
      → from < taps
      → taps < from + taps / 16 + 1
      → let s = clock line_next power_on cs in
        ((out taps ratio s (seen s c)).is_ready ≡ false)
        × ((out taps ratio s (seen s c)).is_error ≡ false)
  master_livelocks cs c l w = early-out s (seen s c) stuck.is_early
    where
      s : Master
      s = clock line_next power_on cs

      stuck : Searching s
      stuck = clock_inv line_next Searching (line_next-Searching l w) power_on cs (ground arith)
