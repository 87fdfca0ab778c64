-- ===== src/Serdes/GtpTxInit/Watchdog.antt =====
-- The transmitter's initialisation of liteiclink/serdes/gtp_7series_init.py with its watchdog,
-- `WaitTimer(1e-3 * sys_clk_freq)`.
use liteiclink.Base.{
  ◌+◌, ◌≤◌, Bool, true, false, List, ◌≡◌, ◌⊎◌, arith, length, WaitTimer, Within, deadline,
}
use liteiclink.Serdes.GtpTxInit.{Fsm, Init, Input, power_down, ready, next, watchdog_wait}

abbrev pub is_ready : Fsm → Bool
is_ready ready = true
is_ready _ = false

module _ (T : WaitTimer) (buffer_enable : Bool) where
  pub record Timed : Type 0 where
    pub core : Init
    pub timer : T.State

  abbrev with_done : Timed → Input → Input
  with_done s n = record n { watchdog_done = T.done s.timer }

  -- One cycle of the circuit and of the watchdog that it drives.
  unfoldable pub timed_next : Timed → Input → Timed
  timed_next s n = record {
    core = next buffer_enable s.core (with_done s n);
    timer = T.tick (watchdog_wait buffer_enable s.core (with_done s n)) s.timer;
  }

  abbrev Settled : Timed → Type 0
  Settled s = (s.core.fsm ≡ ready) ⊎ (s.core.fsm ≡ power_down)

  progress :
      (s : Timed) (n : Input)
      → is_ready s.core.fsm ≡ false
      → Settled (timed_next s n)
        ⊎ ((is_ready (timed_next s n).core.fsm ≡ false)
            × (T.done s.timer ≡ false)
            × ((timed_next s n).timer ≡ T.tick true s.timer))
  unfolding timed_next next watchdog_wait
  progress s n h = ground arith

  -- From a state that is not READY, whatever the transceiver does, the FSM is in READY or back in
  -- POWER-DOWN at some moment within the cycles that the watchdog still needs and one more.
  pub gtp_tx_watchdog-Within :
      (s : Timed) (ns : List Input)
      → is_ready s.core.fsm ≡ false
      → T.remaining s.timer + 1 ≤ length ns
      → Within timed_next s ns (λ t. (t.core.fsm ≡ ready) ⊎ (t.core.fsm ≡ power_down))
  gtp_tx_watchdog-Within =
      deadline T timed_next (λ s. s.timer) (λ s. is_ready s.core.fsm ≡ false) Settled progress
