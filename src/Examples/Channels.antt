-- ===== src/Examples/Channels.antt =====
-- Runs of the channels of liteiclink/serdes, and their clocks.
use liteiclink.Base.{
  ℕ, ◌/◌, ◌==◌, Bool, true, false, List, [], ◌∷◌, ◌++◌, ◌≡◌, refl, some, in_order, map, replicate,
}
use liteiclink.Serdes.GtxInit
use liteiclink.Serdes.Channel.{
  Input, Config, power_on, tx_input, tx_restart, channel_out, channel_next,
}
use liteiclink.Serdes.Channel.Kinds.{gtx}
use liteiclink.Serdes.Channel.Restart.{tx_reenabled}
use liteiclink.Serdes.Channel.Clocks.{Floats, bufr, TxConfig, bufg_gt, tx_clock, us_tx_clock, ratio}

init_input : Bool → GtxInit.Input
init_input a = record {
  restart = false;
  plllock = true;
  resetdone = true;
  dlysresetdone = true;
  aligndone = a;
  drp_done = true;
  init_delay_done = true;
  cdr_lock_done = true;
  watchdog_done = false;
}

input : Bool → Bool → Input (gtx false true)
unfolding init_input
input enable a = record {
  tx_enable = enable;
  rx_enable = enable;
  rx_align = true;
  pll_lock = true;
  aligner_restart = false;
  aligner_ready = true;
  tx = init_input a;
  rx = init_input a;
}

abbrev config : Config
config = record { clock_aligner = true; pll_master = true }

abbrev enabled : List (Input (gtx false true))
unfolding input
enabled =
    replicate 8 (input true false) ++ (input true true ∷ input true false ∷ input true true ∷ [])

tx_reenabled_example :
    in_order (GtxInit.Order.events false) (map (tx_input (gtx false true)) enabled) ≡ true
unfolding input init_input tx_input tx_restart GtxInit.next GtxInit.out channel_next channel_out
tx_reenabled_example =
    tx_reenabled (gtx false true) config (power_on (gtx false true)) (input false false) enabled
      (input true true) refl refl

abbrev numbers : Floats
numbers = record { Float = ℕ; over = ◌/◌; same = ◌==◌; int = λ n. n; float = λ n. n }

-- 250 MHz from the PLL's input for a domain of 125 MHz.
abbrev clocks : TxConfig numbers
clocks = record { buffer = false; given = false; clkin = 250; freq = 125 }

-- The clock goes through a BUFR that divides by 2, and on an Ultrascale device through a BUFG_GT
-- whose DIV is 1.
clocks_divided :
    (tx_clock numbers clocks ≡ some (bufr 2)) × (us_tx_clock numbers clocks ≡ some (bufg_gt 1))
unfolding tx_clock us_tx_clock ratio
clocks_divided = (refl, refl)
