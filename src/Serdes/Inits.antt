-- ===== src/Serdes/Inits.antt =====
-- The initialisations of liteiclink/serdes/*_init.py side by side.
use liteiclink.Base.{
  ◌+◌, ◌≤◌, Bool, true, false, List, ◌≡◌, ◌⊎◌, clock, in_order, length, WaitTimer, Within,
}
use liteiclink.Serdes.GtxInit
use liteiclink.Serdes.GthInit
use liteiclink.Serdes.GthUsInit
use liteiclink.Serdes.GtyInit
use liteiclink.Serdes.GtpTxInit
use liteiclink.Serdes.GtpRxInit

-- GTXInit, GTHInit of the 7-series, GTHInit and GTYInit of the Ultrascale devices, GTPTXInit and
-- GTPRXInit.
pub data Kind : Type 0 where
  gtx gth gth_us gty gtp_tx gtp_rx : Kind

-- A circuit from power-on, where it is done, and the events that this depends on.
pub record Circuit : Type 1 where
  pub State : Type 0
  pub Input : Type 0
  pub next : State → Input → State
  pub power_on : State
  pub IsDone : State → Type 0
  pub events : List (Input → Bool)

-- `rx` counts for the Ultrascale devices, `b` is the argument `buffer_enable`.
abbrev pub circuit : Bool → Bool → Kind → Circuit
circuit rx b gtx = record {
  State = GtxInit.Init;
  Input = GtxInit.Input;
  next = GtxInit.next b;
  power_on = GtxInit.power_on;
  IsDone = λ s. s.fsm ≡ GtxInit.ready;
  events = GtxInit.Order.events b;
}
circuit rx b gth = record {
  State = GthInit.Init;
  Input = GthInit.Input;
  next = GthInit.next b;
  power_on = GthInit.power_on;
  IsDone = λ s. s.fsm ≡ GthInit.ready;
  events = GthInit.Order.events b;
}
circuit rx b gth_us = record {
  State = GthUsInit.Init;
  Input = GthUsInit.Input;
  next = GthUsInit.next rx b;
  power_on = GthUsInit.power_on;
  IsDone = λ s. s.fsm ≡ GthUsInit.ready;
  events = GthUsInit.Order.events rx b;
}
circuit rx b gty = record {
  State = GtyInit.Init;
  Input = GtyInit.Input;
  next = GtyInit.next rx b;
  power_on = GtyInit.power_on;
  IsDone = λ s. s.fsm ≡ GtyInit.ready;
  events = GtyInit.Order.events rx b;
}
circuit rx b gtp_tx = record {
  State = GtpTxInit.Init;
  Input = GtpTxInit.Input;
  next = GtpTxInit.next b;
  power_on = GtpTxInit.power_on;
  IsDone = λ s. s.fsm ≡ GtpTxInit.ready;
  events = GtpTxInit.Order.events b;
}
circuit rx b gtp_rx = record {
  State = GtpRxInit.Init;
  Input = GtpRxInit.Input;
  next = GtpRxInit.next b;
  power_on = GtpRxInit.power_on;
  IsDone = λ s. s.fsm ≡ GtpRxInit.ready;
  events = GtpRxInit.Order.events b;
}

-- When an initialisation is done, the cycles since power-on have shown the events that it depends on,
-- one after the other, each in a cycle of its own.
pub inits_ready_order :
    (rx b : Bool) (k : Kind) (ns : List (Circuit.Input (circuit rx b k)))
    → let c = circuit rx b k in c.IsDone (clock c.next c.power_on ns) → in_order c.events ns ≡ true
inits_ready_order rx b gtx ns h = GtxInit.Order.gtx_ready_order b ns h
inits_ready_order rx b gth ns h = GthInit.Order.gth_ready_order b ns h
inits_ready_order rx b gth_us ns h = GthUsInit.Order.gth_us_ready_order rx b ns h
inits_ready_order rx b gty ns h = GtyInit.Order.gty_ready_order rx b ns h
inits_ready_order rx b gtp_tx ns h = GtpTxInit.Order.gtp_tx_ready_order b ns h
inits_ready_order rx b gtp_rx ns h = GtpRxInit.Order.gtp_rx_ready_order b ns h

-- A circuit with its watchdog, where it is not done, and where it is done or starts again.
pub record Watched (T : WaitTimer) : Type 1 where
  pub State : Type 0
  pub Input : Type 0
  pub next : State → Input → State
  pub timer : State → T.State
  pub is_done : State → Bool
  pub IsSettled : State → Type 0

module _ (T : WaitTimer) where
  abbrev pub watched : Bool → Bool → Kind → Watched T
  watched rx b gtx = record {
    State = GtxInit.Watchdog.Timed T b;
    Input = GtxInit.Input;
    next = GtxInit.Watchdog.timed_next T b;
    timer = λ s. s.timer;
    is_done = λ s. GtxInit.Watchdog.is_ready s.core.fsm;
    IsSettled = λ s. (s.core.fsm ≡ GtxInit.ready) ⊎ (s.core.fsm ≡ GtxInit.power_down);
  }
  watched rx b gth = record {
    State = GthInit.Watchdog.Timed T b;
    Input = GthInit.Input;
    next = GthInit.Watchdog.timed_next T b;
    timer = λ s. s.timer;
    is_done = λ s. GthInit.Watchdog.is_ready s.core.fsm;
    IsSettled = λ s. (s.core.fsm ≡ GthInit.ready) ⊎ (s.core.fsm ≡ GthInit.power_down);
  }
  watched rx b gth_us = record {
    State = GthUsInit.Watchdog.Timed T rx b;
    Input = GthUsInit.Input;
    next = GthUsInit.Watchdog.timed_next T rx b;
    timer = λ s. s.timer;
    is_done = λ s. GthUsInit.Watchdog.is_ready s.core.fsm;
    IsSettled = λ s. (s.core.fsm ≡ GthUsInit.ready) ⊎ (s.core.fsm ≡ GthUsInit.power_down);
  }
  watched rx b gty = record {
    State = GtyInit.Watchdog.Timed T rx b;
    Input = GtyInit.Input;
    next = GtyInit.Watchdog.timed_next T rx b;
    timer = λ s. s.timer;
    is_done = λ s. GtyInit.Watchdog.is_ready s.core.fsm;
    IsSettled = λ s. (s.core.fsm ≡ GtyInit.ready) ⊎ (s.core.fsm ≡ GtyInit.power_down);
  }
  watched rx b gtp_tx = record {
    State = GtpTxInit.Watchdog.Timed T b;
    Input = GtpTxInit.Input;
    next = GtpTxInit.Watchdog.timed_next T b;
    timer = λ s. s.timer;
    is_done = λ s. GtpTxInit.Watchdog.is_ready s.core.fsm;
    IsSettled = λ s. (s.core.fsm ≡ GtpTxInit.ready) ⊎ (s.core.fsm ≡ GtpTxInit.power_down);
  }
  watched rx b gtp_rx = record {
    State = GtpRxInit.Watchdog.Timed T b;
    Input = GtpRxInit.Input;
    next = GtpRxInit.Watchdog.timed_next T b;
    timer = λ s. s.timer;
    is_done = λ s. GtpRxInit.Watchdog.is_ready s.core.fsm;
    IsSettled = λ s. (s.core.fsm ≡ GtpRxInit.ready) ⊎ (s.core.fsm ≡ GtpRxInit.power_down);
  }

  -- From a state that is not READY an initialisation is in READY or back in POWER-DOWN within the
  -- cycles that its watchdog still needs and one more, whatever the transceiver does.
  pub inits_watchdog-Within :
      (rx b : Bool) (k : Kind) (s : Watched.State (watched rx b k))
      (ns : List (Watched.Input (watched rx b k)))
      → let w = watched rx b k in
        w.is_done s ≡ false
        → T.remaining (w.timer s) + 1 ≤ length ns
        → Within w.next s ns w.IsSettled
  inits_watchdog-Within rx b gtx s ns h g = GtxInit.Watchdog.gtx_watchdog-Within T b s ns h g
  inits_watchdog-Within rx b gth s ns h g = GthInit.Watchdog.gth_watchdog-Within T b s ns h g
  inits_watchdog-Within rx b gth_us s ns h g =
      GthUsInit.Watchdog.gth_us_watchdog-Within T rx b s ns h g
  inits_watchdog-Within rx b gty s ns h g = GtyInit.Watchdog.gty_watchdog-Within T rx b s ns h g
  inits_watchdog-Within rx b gtp_tx s ns h g =
      GtpTxInit.Watchdog.gtp_tx_watchdog-Within T b s ns h g
  inits_watchdog-Within rx b gtp_rx s ns h g =
      GtpRxInit.Watchdog.gtp_rx_watchdog-Within T b s ns h g
