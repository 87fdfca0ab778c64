-- ===== src/Serdes/Channel.antt =====
-- The control of a channel of the Xilinx transceivers, GTX, GTH, GTP and GTY of
-- liteiclink/serdes/{gtx_7series,gth_7series,gtp_7series,gth3_ultrascale,gth4_ultrascale,gty_ultrascale}.py:
-- the initialisations of its transmitter and receiver, the PLL and the clock aligner, which all six
-- wire in the same way. The signals that cross a clock domain are taken where they arrive.
pub mod Kinds
pub mod Restart
pub mod Clocks
use liteiclink.Base.{
  Bool, true, false, not, ◌&&◌, ◌||◌, List, ◌∷◌, ◌≡◌, clock, in_order, if◌then◌else◌,
}

-- An initialisation as a channel sees it. `drive` puts `restart` and `plllock` on its inputs, and
-- `events` is what has to happen before it is done.
pub record Initialisation : Type 1 where
  pub State : Type 0
  pub Input : Type 0
  pub power_on : State
  pub next : State → Input → State
  pub done : State → Input → Bool
  pub drive : (restart plllock : Bool) → Input → Input
  pub events : List (Input → Bool)
  pub restarted_order :
      (s : State) (plllock : Bool) (m : Input) (ms : List Input) (n : Input)
      → done (clock next s (drive true plllock m ∷ ms)) n ≡ true
      → in_order events ms ≡ true

-- The two initialisations of a channel, and `tx_init.pllreset`.
pub record Kind : Type 1 where
  pub tx : Initialisation
  pub rx : Initialisation
  pub pllreset : Initialisation.State tx → Initialisation.Input tx → Bool

-- `clock_aligner`, and `pll_master`, in a GTP channel `qpll_reset`.
pub record Config : Type 0 where
  pub clock_aligner : Bool
  pub pll_master : Bool

module _ (k : Kind) where
  -- `tx_enable`, `rx_enable`, `rx_align`, `pll.lock`, `ps_restart.o` and `clock_aligner.ready`, and the
  -- other inputs of the initialisations.
  pub record Input : Type 0 where
    pub tx_enable : Bool
    pub rx_enable : Bool
    pub rx_align : Bool
    pub pll_lock : Bool
    pub aligner_restart : Bool
    pub aligner_ready : Bool
    pub tx : Initialisation.Input k.tx
    pub rx : Initialisation.Input k.rx

  pub record Output : Type 0 where
    pub tx_ready : Bool
    pub rx_ready : Bool
    pub pll_reset : Bool

  pub record Channel : Type 0 where
    pub tx_init : Initialisation.State k.tx
    pub rx_init : Initialisation.State k.rx

  abbrev pub power_on : Channel
  power_on = record { tx_init = k.tx.power_on; rx_init = k.rx.power_on }

  -- The inputs of the initialisations, as they are wired.
  unfoldable pub tx_restart : Input → Bool
  tx_restart n = not n.tx_enable

  unfoldable pub rx_restart : Config → Input → Bool
  rx_restart c n =
      if c.clock_aligner
      then (n.aligner_restart && n.rx_align) || not n.rx_enable
      else not n.rx_enable

  unfoldable pub tx_input : Input → Initialisation.Input k.tx
  unfolding tx_restart
  tx_input n = k.tx.drive (tx_restart n) n.pll_lock n.tx

  unfoldable pub rx_input : Config → Input → Initialisation.Input k.rx
  unfolding rx_restart
  rx_input c n = k.rx.drive (rx_restart c n) n.pll_lock n.rx

  unfoldable pub channel_out : Config → Channel → Input → Output
  unfolding tx_input rx_input
  channel_out c s n = record {
    tx_ready = k.tx.done s.tx_init (tx_input n);
    rx_ready = if c.clock_aligner then n.aligner_ready else k.rx.done s.rx_init (rx_input c n);
    pll_reset = if c.pll_master then k.pllreset s.tx_init (tx_input n) else false;
  }

  unfoldable pub channel_next : Config → Channel → Input → Channel
  unfolding tx_input rx_input
  channel_next c s n = record {
    tx_init = k.tx.next s.tx_init (tx_input n);
    rx_init = k.rx.next s.rx_init (rx_input c n);
  }
