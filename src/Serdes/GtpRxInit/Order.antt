-- ===== src/Serdes/GtpRxInit/Order.antt =====
-- What has to happen before the initialisation of liteiclink/serdes/gtp_7series_init.py is done.
use liteiclink.Base.{
  ℕ, Bool, true, false, not, ◌&&◌, List, [], ◌∷◌, ◌≡◌, arith, clock, in_order, in_order-drop,
  in_order-cons, drop, if◌then◌else◌,
}
use mathlib.Core.Path.{subst}
use liteiclink.Serdes.GtpRxInit.{
  Fsm, Init, Input, power_down, wait_init_delay, drp_read_issue, drp_read_wait, drp_mod_issue,
  drp_mod_wait, wait_pmarst_fall, drp_restore_issue, drp_restore_wait, wait_gtp_reset, align,
  wait_align_done, ready, act, out, next, fsm_reset, power_on,
}

abbrev pub events : Bool → List (Input → Bool)
events b =
    (λ n. n.plllock && n.init_delay_done)
    ∷ (λ n. n.drp_rdy)
    ∷ (λ n. n.drp_rdy)
    ∷ (λ n. not n.pmaresetdone)
    ∷ (λ n. n.drp_rdy)
    ∷ (λ n. n.resetdone)
    ∷ (if b then [] else (λ n. n.dlysresetdone) ∷ (λ n. n.syncdone) ∷ [])

-- How many of the events a state has behind it.
abbrev seen : Fsm → ℕ
seen power_down = 0
seen wait_init_delay = 0
seen drp_read_issue = 1
seen drp_read_wait = 1
seen drp_mod_issue = 2
seen drp_mod_wait = 2
seen wait_pmarst_fall = 3
seen drp_restore_issue = 4
seen drp_restore_wait = 4
seen wait_gtp_reset = 5
seen align = 6
seen wait_align_done = 7
seen ready = 8

abbrev left : Bool → Fsm → List (Input → Bool)
left b f = drop (seen f) (events b)

-- A cycle without reset: what it shows is the next event, if the FSM waits for one and goes on.
act-left :
    (b : Bool) (f : Fsm) (s : Init) (n : Input) (ns : List Input)
    → in_order (left b (act b f s n).1) ns ≡ true
    → in_order (left b f) (n ∷ ns) ≡ true
unfolding act
act-left b power_down s n ns h = in_order-cons (events b) n ns h
act-left true f s n ns h = ground (arith, in_order-drop 1 (left true f) ns)
act-left false f s n ns h = ground (arith, in_order-drop 1 (left false f) ns)

next-left :
    (b : Bool) (s : Init) (n : Input) (ns : List Input)
    → in_order (left b (next b s n).fsm) ns ≡ true
    → in_order (left b s.fsm) (n ∷ ns) ≡ true
unfolding next
next-left b s n ns =
    elim (fsm_reset n)
      as (λ r.
        in_order (left b (if r then power_down else (act b s.fsm s n).1)) ns ≡ true
        → in_order (left b s.fsm) (n ∷ ns) ≡ true) [
          | true ↦ λ h. in_order-cons _ n ns (in_order-drop (seen s.fsm) (events b) ns h)
          | false ↦ λ h. act-left b s.fsm s n ns h
        ]

clock-left :
    (b : Bool) (s : Init) (ns : List Input)
    → (clock (next b) s ns).fsm ≡ ready
    → in_order (left b s.fsm) ns ≡ true
unfolding next
clock-left true s [] h = rw h
clock-left false s [] h = rw h
clock-left b s (n ∷ ns) h = next-left b s n ns (clock-left b (next b s n) ns h)

-- When the initialisation is done, the cycles since power-on have shown, in this order: the PLL
-- locked with the delay of 500 ns over, the DRP ready after the read and after the changed write,
-- the PMA out of its reset-done state, the DRP ready after the restoring write, and the reset
-- done; and, if the buffer is bypassed, the delay reset done and the synchronisation done.
pub gtp_rx_ready_order :
    (b : Bool) (ns : List Input)
    → (clock (next b) power_on ns).fsm ≡ ready
    → in_order (events b) ns ≡ true
gtp_rx_ready_order b ns h = clock-left b power_on ns h

done-ready : (b : Bool) (s : Init) (n : Input) → (out b s n).done ≡ true → s.fsm ≡ ready
unfolding out act
done-ready b s n h = ground arith

pub restart-power_down :
    (b : Bool) (s : Init) (n : Input) → n.restart ≡ true → (next b s n).fsm ≡ power_down
unfolding next
restart-power_down b s n h = ground arith

-- The same from any cycle in which the initialisation is restarted.
pub gtp_rx_restarted_order :
    (b : Bool) (s : Init) (m : Input) (ms : List Input) (n : Input)
    → m.restart ≡ true
    → (out b (clock (next b) s (m ∷ ms)) n).done ≡ true
    → in_order (events b) ms ≡ true
gtp_rx_restarted_order b s m ms n h d =
    subst (λ f. in_order (left b f) ms ≡ true) (restart-power_down b s m h)
      (clock-left b (next b s m) ms (done-ready b (clock (next b) s (m ∷ ms)) n d))
