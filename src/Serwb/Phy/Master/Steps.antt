-- ===== src/Serwb/Phy/Master/Steps.antt =====
-- The steps of the search of the master of liteiclink/serwb/phy.py, with its timer, over a line that
-- is stable.
use liteiclink.Base.{
  ℕ, ◌+◌, ◌-◌, ◌/◌, ◌<◌, ◌≤◌, Bool, true, false, ◌≡◌, ◌⊎◌, arith, WaitTimer, waits, Goes, once,
  ◌>>>◌,
}
use liteiclink.Serwb.Phy.Master.{
  Fsm, Master, Input, idle, inc_phase_sel, error, cleared, reset_slave, send_pattern, wait_stable,
  check_pattern, inc_delay_shift, check_sampling_window, configure_sampling_window, ready, out,
  next, act, power_on,
}
use liteiclink.Serwb.Phy.Taps.{inc_fits, window_lem}

-- The registers while no delay with commas is found at the shift `k` of the phase `ph`.
abbrev pub searching : ℕ → Fsm → ℕ → ℕ → Master
searching ph f d k = record (cleared f ph) { delay = d; shift = k }

-- The registers from the first delay with commas on, and from the last one on.
abbrev pub measuring : ℕ → Fsm → ℕ → ℕ → ℕ → Master
measuring ph f from d k = record (searching ph f d k) { delay_min = from; delay_min_found = true }

abbrev pub measured : ℕ → Fsm → ℕ → ℕ → ℕ → ℕ → Master
measured ph f from last d k = record (measuring ph f from d k) {
  delay_max = last;
  delay_max_found = true;
}

module _ (T : WaitTimer) (taps ratio : ℕ) (comma_at : ℕ → ℕ → ℕ → Bool) where
  pub record Timed : Type 0 where
    pub core : Master
    pub timer : T.State

  -- The line is not idle, and the receiver sees commas by its phase, its shift and its delay.
  abbrev line : Timed → Input
  line s = record {
    done = T.done s.timer;
    rx_idle = false;
    rx_comma = comma_at s.core.phase_sel s.core.shift s.core.delay;
  }

  unfoldable pub timed_next : Timed → Timed
  timed_next s = record {
    core = next taps ratio s.core (line s);
    timer = T.tick (out taps ratio s.core (line s)).timer_wait s.timer;
  }

  abbrev pub Is : Master → Timed → Type 0
  Is m s = s.core ≡ m

  abbrev pub Leads : Master → Master → Type 0
  Leads m m' = Goes timed_next (Is m) (Is m')

  module _ (ph : ℕ) where
    pub idle-check : (k : ℕ) → Leads (searching ph idle 0 k) (searching ph check_pattern 0 0)
    unfolding timed_next next out act
    idle-check k =
        once (λ s p. ground arith)
        >>> waits T timed_next (λ t. t.timer) (Is (searching ph reset_slave 0 0))
            (λ s p b. ground arith)
        >>> once (λ s p. ground arith)
        >>> waits T timed_next (λ t. t.timer) (Is (searching ph send_pattern 0 0))
            (λ s p b. ground arith)
        >>> once (λ s p. ground arith)

    pub check-inc :
        (d k : ℕ)
        → comma_at ph k d ≡ false
        → Leads (searching ph check_pattern d k) (searching ph inc_delay_shift d k)
    unfolding timed_next next out act
    check-inc d k c = once (λ s p. ground arith)

    pub inc-check :
        (d k : ℕ)
        → d + 1 < taps
        → Leads (searching ph inc_delay_shift d k) (searching ph check_pattern (d + 1) k)
    unfolding timed_next next out act
    inc-check d k h =
        once (λ s p. ground (arith, inc_fits d taps))
        >>> waits T timed_next (λ t. t.timer) (Is (searching ph wait_stable (d + 1) k))
            (λ s p b. ground arith)
        >>> once (λ s p. ground arith)

    -- The last delay: the next shift.
    pub inc-shift :
        (d k : ℕ)
        → d + 1 ≡ taps
        → k < 39
        → Leads (searching ph inc_delay_shift d k) (searching ph check_pattern 0 (k + 1))
    unfolding timed_next next out act
    inc-shift d k e h =
        once (λ s p. ground arith)
        >>> waits T timed_next (λ t. t.timer) (Is (searching ph wait_stable 0 (k + 1)))
            (λ s p b. ground arith)
        >>> once (λ s p. ground arith)

    pub check-min :
        (d k : ℕ)
        → comma_at ph k d ≡ true
        → Leads (searching ph check_pattern d k) (measuring ph check_pattern d d k)
    unfolding timed_next next out act
    check-min d k c =
        waits T timed_next (λ t. t.timer) (Is (searching ph check_pattern d k))
          (λ s p b. ground arith)
        >>> once (λ s p. ground arith)

    pub check-on :
        (from d k : ℕ)
        → comma_at ph k d ≡ true
        → d + 1 < taps
        → Leads (measuring ph check_pattern from d k) (measuring ph check_pattern from (d + 1) k)
    unfolding timed_next next out act
    check-on from d k c h =
        once {Q = Is (measuring ph inc_delay_shift from d k)} (λ s p. ground arith)
        >>> once (λ s p. ground (arith, inc_fits d taps))
        >>> waits T timed_next (λ t. t.timer) (Is (measuring ph wait_stable from (d + 1) k))
            (λ s p b. ground arith)
        >>> once (λ s p. ground arith)

    pub check-max :
        (from last k : ℕ)
        → (last + 1 ≡ taps) ⊎ (comma_at ph k last ≡ false)
        → Leads
            (measuring ph check_pattern from last k)
            (measured ph check_sampling_window from last last k)
    unfolding timed_next next out act
    check-max from last k e = once (λ s p. ground arith)

    pub accepted :
        (from last k : ℕ)
        → from ≤ last
        → last < taps
        → taps / 16 ≤ last - from
        → Leads
            (measured ph check_sampling_window from last last k)
            (measured ph configure_sampling_window from last 0 k)
    unfolding timed_next next out act
    accepted from last k l h w = once (λ s p. ground (arith, window_lem last from taps l h))

    pub configure :
        (from last d k : ℕ)
        → from ≤ last
        → last < taps
        → d < from + (last - from) / 2
        → Leads
            (measured ph configure_sampling_window from last d k)
            (measured ph configure_sampling_window from last (d + 1) k)
    unfolding timed_next next out act
    configure from last d k l h w =
        let e = inc_fits d taps (omega arith) (omega arith) in
        once (λ s p. ground (arith, window_lem last from taps l h, e))

    pub configured :
        (from last k : ℕ)
        → from ≤ last
        → last < taps
        → Leads
            (measured ph configure_sampling_window from last (from + (last - from) / 2) k)
            (measured ph ready from last (from + (last - from) / 2) k)
    unfolding timed_next next out act
    configured from last k l h = once (λ s p. ground (arith, window_lem last from taps l h))

    -- The last delay of the last shift: the next phase, or the error.
    pub inc-phase :
        (d : ℕ)
        → d + 1 ≡ taps
        → ph + 1 < ratio
        → ratio ≤ 4
        → Leads (searching ph inc_delay_shift d 39) (searching (ph + 1) idle 0 39)
    unfolding timed_next next out act
    inc-phase d e h r =
        once {Q = Is (searching ph inc_phase_sel 0 39)} (λ s p. ground arith)
        >>> once (λ s p. ground arith)

    pub inc-error :
        (d : ℕ)
        → d + 1 ≡ taps
        → ph + 1 ≡ ratio
        → Goes timed_next (Is (searching ph inc_delay_shift d 39)) (λ s. s.core.fsm ≡ error)
    unfolding timed_next next out act
    inc-error d e h =
        once {Q = Is (searching ph inc_phase_sel 0 39)} (λ s p. ground arith)
        >>> once (λ s p. ground arith)

  pub start-idle : Leads power_on (searching 0 idle 0 0)
  unfolding timed_next next out act
  start-idle = once (λ s p. ground arith)
