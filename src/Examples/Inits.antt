-- ===== src/Examples/Inits.antt =====
-- Runs of the initialisation of the transceivers in liteiclink/serdes.
use liteiclink.Base.{
  Bool, true, false, List, [], ◌∷◌, ◌++◌, ◌≡◌, ◌⊎◌, refl, replicate, clock, in_order, countdown,
  Within, arith,
}
use Prim.Native.Nat.{bit_and}
use liteiclink.Serdes.GtxInit
use liteiclink.Serdes.Inits.{gtx, gtp_rx, inits_ready_order, inits_watchdog-Within}
use liteiclink.Serdes.GtpRxInit

gtx_input : Bool → GtxInit.Input
gtx_input a = record {
  restart = false;
  plllock = true;
  resetdone = true;
  dlysresetdone = true;
  aligndone = a;
  drp_done = true;
  init_delay_done = true;
  cdr_lock_done = true;
  watchdog_done = false;
}

gtp_rx_input : Bool → GtpRxInit.Input
gtp_rx_input a = record {
  restart = false;
  plllock = true;
  resetdone = true;
  dlysresetdone = true;
  syncdone = true;
  pmaresetdone = a;
  drp_rdy = true;
  drp_do = 0xabcd;
  init_delay_done = true;
  watchdog_done = false;
}

abbrev gtp_rx_inputs : List GtpRxInit.Input
unfolding gtp_rx_input
gtp_rx_inputs = replicate 6 (gtp_rx_input true) ++ replicate 6 (gtp_rx_input false)

-- The DRP is being read.
abbrev reading : GtpRxInit.Init
reading = record GtpRxInit.power_on { fsm = GtpRxInit.Fsm.drp_read_wait }

abbrev until_restore : List GtpRxInit.Input
unfolding gtp_rx_input
until_restore = gtp_rx_input true ∷ gtp_rx_input true ∷ gtp_rx_input false ∷ []

abbrev restoring : GtpRxInit.Init
restoring =
    clock (GtpRxInit.next true) (GtpRxInit.next true reading (gtp_rx_input true)) until_restore

drp_restores_example :
    ((restoring.fsm ≡ GtpRxInit.Fsm.drp_mod_issue)
      × (GtpRxInit.drp_di true restoring (gtp_rx_input false)
          ≡ bit_and (gtp_rx_input true).drp_do 0xf7ff))
    ⊎ ((restoring.fsm ≡ GtpRxInit.Fsm.drp_restore_issue)
        × (GtpRxInit.drp_di true restoring (gtp_rx_input false) ≡ (gtp_rx_input true).drp_do))
unfolding gtp_rx_input GtpRxInit.next GtpRxInit.out
drp_restores_example =
    GtpRxInit.Drp.drp_restores true reading (gtp_rx_input true) until_restore (gtp_rx_input false)
      refl refl refl (refl, (refl, (refl, tt))) refl

inits_ready_order_example : in_order (GtpRxInit.Order.events false) gtp_rx_inputs ≡ true
unfolding gtp_rx_input GtpRxInit.next
inits_ready_order_example = inits_ready_order false false gtp_rx gtp_rx_inputs refl

-- The PLL does not lock, with two cycles left on the timer.
abbrev waiting : GtxInit.Watchdog.Timed (countdown 9) false
waiting = record { core = GtxInit.power_on; timer = 2 }

inits_watchdog-Within_example :
    Within
      (GtxInit.Watchdog.timed_next (countdown 9) false)
      waiting
      (replicate 3 (record (gtx_input false) { plllock = false }))
      (λ t. (t.core.fsm ≡ GtxInit.ready) ⊎ (t.core.fsm ≡ GtxInit.power_down))
unfolding gtx_input
inits_watchdog-Within_example =
    inits_watchdog-Within (countdown 9) false false gtx waiting
      (replicate 3 (record (gtx_input false) { plllock = false })) refl (omega arith)
