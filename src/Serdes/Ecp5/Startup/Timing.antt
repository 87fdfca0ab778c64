-- ===== src/Serdes/Ecp5/Startup/Timing.antt =====
-- SerdesInit of liteiclink/serdes/serdes_ecp5.py with its timer.
use liteiclink.Base.{true, false, ◌||◌, ◌≡◌, arith, WaitTimer, Eventually, Goes, waits, once, ◌>>>◌}
use liteiclink.Serdes.Ecp5.Startup.{
  Fsm, Input, reset_all, reset_rx_pcs_wait_tx_pll_lock, reset_pcs_wait_rx_cdr_lock, ready, Timed,
  timed_next, next, out,
}

-- A cycle with both ends locked and a signal.
abbrev pub locked : Input
locked = record { rst = false; tx_lol = false; rx_lol = false; rx_los = false; timer_done = false }

module _ (T : WaitTimer) where
  abbrev pub locked_next : Timed T → Timed T
  locked_next s = timed_next T s locked

  abbrev In : Fsm → Timed T → Type 0
  In f s = s.fsm ≡ f

  -- Waiting in a state for the timer, and leaving it.
  reset_all-leaves : Goes locked_next (In reset_all) (In reset_rx_pcs_wait_tx_pll_lock)
  unfolding timed_next next out
  reset_all-leaves =
      waits T locked_next (λ s. s.timer) (In reset_all) (λ s p d. ground arith)
      >>> once (λ s p. ground arith)

  tx-leaves : Goes locked_next (In reset_rx_pcs_wait_tx_pll_lock) (In reset_pcs_wait_rx_cdr_lock)
  unfolding timed_next next out
  tx-leaves =
      waits T locked_next (λ s. s.timer) (In reset_rx_pcs_wait_tx_pll_lock) (λ s p d. ground arith)
      >>> once (λ s p. ground arith)

  rx-leaves : Goes locked_next (In reset_pcs_wait_rx_cdr_lock) (In ready)
  unfolding timed_next next out
  rx-leaves =
      waits T locked_next (λ s. s.timer) (In reset_pcs_wait_rx_cdr_lock) (λ s p d. ground arith)
      >>> once (λ s p. ground arith)

  -- From a reset, with both ends locked, SerdesInit gets ready.
  pub ecp5_gets_ready :
      (s : Timed T) → s.fsm ≡ reset_all → Eventually locked_next s (λ t. t.fsm ≡ ready)
  ecp5_gets_ready = reset_all-leaves >>> tx-leaves >>> rx-leaves

  -- In READY with a timer that is done and stays done while it waits: if a lock is lost in a cycle with
  -- a signal, the transmitter is reset for the single cycle after it, unless `rst` is set in one of
  -- the two.
  pub ecp5_short_reset :
      (s : Timed T) (n m : Input)
      → ((t : T.State) → T.done t ≡ true → T.done (T.tick true t) ≡ true)
      → s.fsm ≡ ready
      → T.done s.timer ≡ true
      → n.rst ≡ false
      → (n.tx_lol || n.rx_lol) ≡ true
      → n.rx_los ≡ false
      → m.rst ≡ false
      → ((timed_next T s n).fsm ≡ reset_all)
        × ((timed_next T (timed_next T s n) m).fsm ≡ reset_rx_pcs_wait_tx_pll_lock)
  unfolding timed_next next out
  ecp5_short_reset s n m stays f d r l o q = ground (arith, stays s.timer)
