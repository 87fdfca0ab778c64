-- ===== src/Serwb/Phy/Master/Search.antt =====
-- The search of the master of liteiclink/serwb/phy.py, with its timer, over a line that is stable.
use liteiclink.Base.{
  ℕ, ◌+◌, ◌-◌, ◌/◌, ◌<◌, ◌≤◌, Bool, true, false, ◌≡◌, ◌⊎◌, arith, WaitTimer, Eventually, steps,
  ◌>>>◌,
}
use liteiclink.Serwb.Phy.Master.{
  inc_delay_shift, check_pattern, configure_sampling_window, ready, error, power_on,
}
use liteiclink.Serwb.Phy.Master.Steps.{
  searching, measuring, measured, Timed, timed_next, Is, Leads, start-idle, idle-check, check-inc,
  inc-check, inc-shift, check-min, check-on, check-max, accepted, configure, configured, inc-phase,
  inc-error,
}

module _ (T : WaitTimer) (taps ratio : ℕ) (comma_at : ℕ → ℕ → ℕ → Bool) where
  -- No commas in the phase `q`.
  abbrev pub IsSilent : ℕ → Type 0
  IsSilent q = (j d : ℕ) → j < 40 → d < taps → comma_at q j d ≡ false

  -- The line: no commas in the phases before `ph`, nor in that phase before the shift `k`; and at `k`
  -- a window of delays, wide enough, that starts at `from` and ends in front of `last` or with the
  -- last delay.
  pub record HasWindow (ph k from last : ℕ) : Type 0 where
    pub phases_fit : ratio ≤ 4
    pub phase_fits : ph < ratio
    pub shift_fits : k < 40
    pub silent_before : (q : ℕ) → q < ph → IsSilent q
    pub none_before : (j d : ℕ) → j < k → d < taps → comma_at ph j d ≡ false
    pub none_below : (d : ℕ) → d < from → comma_at ph k d ≡ false
    pub starts : comma_at ph k from ≡ true
    pub inside : (d : ℕ) → from ≤ d → d < last → comma_at ph k d ≡ true
    pub ends : (last + 1 ≡ taps) ⊎ (comma_at ph k last ≡ false)
    pub ordered : from ≤ last
    pub fits : last < taps
    pub wide : taps / 16 ≤ last - from

  module _ (ph : ℕ) where
    -- A shift at which no commas are seen.
    at-last :
        (j : ℕ)
        → 0 < taps
        → ((d : ℕ) → d < taps → comma_at ph j d ≡ false)
        → Leads T taps ratio comma_at
            (searching ph check_pattern 0 j)
            (searching ph inc_delay_shift (taps - 1) j)
    at-last j t f =
        steps (λ d. Is T taps ratio comma_at (searching ph check_pattern d j)) (taps - 1) 0
          (taps - 1) (omega arith)
          (λ d a b.
            check-inc T taps ratio comma_at ph d j (f d (omega arith))
            >>> inc-check T taps ratio comma_at ph d j (omega arith))
        >>> check-inc T taps ratio comma_at ph (taps - 1) j (f (taps - 1) (omega arith))

    past-shifts :
        (k : ℕ)
        → 0 < taps
        → k < 40
        → ((j d : ℕ) → j < k → d < taps → comma_at ph j d ≡ false)
        → Leads T taps ratio comma_at
            (searching ph check_pattern 0 0)
            (searching ph check_pattern 0 k)
    past-shifts k t l f =
        steps (λ j. Is T taps ratio comma_at (searching ph check_pattern 0 j)) k 0 k (omega arith)
          (λ j a b.
            at-last j t (λ d h. f j d b h)
            >>> inc-shift T taps ratio comma_at ph (taps - 1) j (omega arith) (omega arith))

    -- A phase in which no commas are seen.
    past-phase :
        0 < taps
        → IsSilent ph
        → Leads T taps ratio comma_at
            (searching ph check_pattern 0 0)
            (searching ph inc_delay_shift (taps - 1) 39)
    past-phase t f =
        past-shifts 39 t (omega arith) (λ j d l h. f j d (omega arith) h)
        >>> at-last 39 t (λ d h. f 39 d (omega arith) h)

  past-phases :
      (ph : ℕ)
      → 0 < taps
      → ratio ≤ 4
      → ph < ratio
      → ((q : ℕ) → q < ph → IsSilent q)
      → Leads T taps ratio comma_at power_on (searching ph check_pattern 0 0)
  past-phases ph t r l f =
      start-idle T taps ratio comma_at
      >>> idle-check T taps ratio comma_at 0 0
      >>> steps (λ q. Is T taps ratio comma_at (searching q check_pattern 0 0)) ph 0 ph
          (omega arith)
          (λ q a b.
            past-phase q t (f q b)
            >>> inc-phase T taps ratio comma_at q (taps - 1) (omega arith) (omega arith) r
            >>> idle-check T taps ratio comma_at (q + 1) 39)

  -- From power-on, over a line that is not idle and on which no commas are seen at any delay, shift
  -- and phase, the master of the vendor PHYs ends in error.
  pub master_fails :
      (s : Timed T taps ratio comma_at)
      → 0 < taps
      → 0 < ratio
      → ratio ≤ 4
      → ((q : ℕ) → q < ratio → IsSilent q)
      → s.core ≡ power_on
      → Eventually (timed_next T taps ratio comma_at) s (λ t. t.core.fsm ≡ error)
  master_fails s t p r f =
      (past-phases (ratio - 1) t r (omega arith) (λ q h. f q (omega arith))
          >>> past-phase (ratio - 1) t (f (ratio - 1) (omega arith))
          >>> inc-error T taps ratio comma_at (ratio - 1) (taps - 1) (omega arith) (omega arith))
        s

  module _ (ph k from last : ℕ) (h : HasWindow ph k from last) where
    finds-min : Leads T taps ratio comma_at power_on (measuring ph check_pattern from from k)
    finds-min =
        past-phases ph (omega (arith, h.fits)) h.phases_fit h.phase_fits h.silent_before
        >>> past-shifts ph k (omega (arith, h.fits)) h.shift_fits h.none_before
        >>> steps (λ d. Is T taps ratio comma_at (searching ph check_pattern d k)) from 0 from
            (omega arith)
            (λ d a b.
              check-inc T taps ratio comma_at ph d k (h.none_below d b)
              >>> inc-check T taps ratio comma_at ph d k (omega (arith, h.ordered, h.fits)))
        >>> check-min T taps ratio comma_at ph from k h.starts

    finds-max :
        Leads T taps ratio comma_at power_on (measured ph configure_sampling_window from last 0 k)
    finds-max =
        finds-min
        >>> steps (λ d. Is T taps ratio comma_at (measuring ph check_pattern from d k))
            (last - from) from last (omega (arith, h.ordered))
            (λ d a b.
              check-on T taps ratio comma_at ph from d k (h.inside d a b) (omega (arith, h.fits)))
        >>> check-max T taps ratio comma_at ph from last k h.ends
        >>> accepted T taps ratio comma_at ph from last k h.ordered h.fits h.wide

    -- From power-on, over a line that is not idle and on which no commas are seen before the shift
    -- `k` of the phase `ph`, and there from the delay `from` on, wide enough, up to `last`, the master
    -- of the vendor PHYs gets ready at that phase and shift, with these ends of the window and the
    -- delay in its middle.
    pub master_locks :
        (s : Timed T taps ratio comma_at)
        → s.core ≡ power_on
        → Eventually
            (timed_next T taps ratio comma_at)
            s
            (λ t. t.core ≡ measured ph ready from last (from + (last - from) / 2) k)
    master_locks =
        finds-max
        >>> steps
            (λ d. Is T taps ratio comma_at (measured ph configure_sampling_window from last d k))
            (from + (last - from) / 2) 0 (from + (last - from) / 2) (omega arith)
            (λ d a b. configure T taps ratio comma_at ph from last d k h.ordered h.fits b)
        >>> configured T taps ratio comma_at ph from last k h.ordered h.fits
