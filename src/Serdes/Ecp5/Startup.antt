-- ===== src/Serdes/Ecp5/Startup.antt =====
-- SerdesInit of liteiclink/serdes/serdes_ecp5.py.
pub mod Order
pub mod Timing
use liteiclink.Base.{Bool, true, false, not, ◌&&◌, ◌||◌, if◌then◌else◌, WaitTimer}

pub data Fsm : Type 0 where
  reset_all reset_rx_pcs_wait_tx_pll_lock reset_pcs_wait_rx_cdr_lock ready : Fsm

-- `rst`, the loss of lock of the transmitter and of the receiver and the loss of signal, as they
-- leave their synchronizers, and `timer.done`.
pub record Input : Type 0 where
  pub rst : Bool
  pub tx_lol : Bool
  pub rx_lol : Bool
  pub rx_los : Bool
  pub timer_done : Bool

pub record Output : Type 0 where
  pub tx_rst : Bool
  pub rx_rst : Bool
  pub pcs_rst : Bool
  pub is_ready : Bool
  pub timer_wait : Bool

abbrev resets : Bool → Bool → Bool → Bool → Output
resets tx rx pcs wait = record {
  tx_rst = tx;
  rx_rst = rx;
  pcs_rst = pcs;
  is_ready = false;
  timer_wait = wait;
}

-- `fsm.act`: the outputs in a state, and the next state. The timer waits but in a reset and where
-- the FSM leaves a state that it times.
unfoldable pub act : Fsm → Input → Output × Fsm
act reset_all n =
    if n.timer_done
    then (resets true true true false, reset_rx_pcs_wait_tx_pll_lock)
    else (resets true true true (not n.rst), reset_all)
act reset_rx_pcs_wait_tx_pll_lock n =
    if n.timer_done && not n.tx_lol
    then (resets false true true false, reset_pcs_wait_rx_cdr_lock)
    else (resets false true true (not n.rst), reset_rx_pcs_wait_tx_pll_lock)
act reset_pcs_wait_rx_cdr_lock n =
    if n.timer_done && not n.rx_lol
    then (resets false false true false, ready)
    else (resets false false true (not n.rst), reset_pcs_wait_rx_cdr_lock)
act ready n = (
  record {
    tx_rst = false;
    rx_rst = false;
    pcs_rst = false;
    is_ready = true;
    timer_wait = not n.rst;
  },
  if n.rx_los
      then reset_rx_pcs_wait_tx_pll_lock
      else if n.tx_lol || n.rx_lol
      then reset_all
      else ready,
)

unfoldable pub out : Fsm → Input → Output
unfolding act
out f n = (act f n).0

unfoldable pub next : Fsm → Input → Fsm
unfolding act
next f n = if n.rst then reset_all else (act f n).1

-- With its timer, `WaitTimer(1024)`.
module _ (T : WaitTimer) where
  pub record Timed : Type 0 where
    pub fsm : Fsm
    pub timer : T.State

  abbrev pub with_done : Timed → Input → Input
  with_done s n = record n { timer_done = T.done s.timer }

  unfoldable pub timed_next : Timed → Input → Timed
  unfolding next out
  timed_next s n = record {
    fsm = next s.fsm (with_done s n);
    timer = T.tick (out s.fsm (with_done s n)).timer_wait s.timer;
  }
