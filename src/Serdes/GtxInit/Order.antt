-- ===== src/Serdes/GtxInit/Order.antt =====
-- What has to happen before the initialisation of liteiclink/serdes/gtx_7series_init.py is done.
use liteiclink.Base.{
  ℕ, Bool, true, false, not, ◌&&◌, List, [], ◌∷◌, ◌≡◌, arith, clock, in_order, in_order-drop,
  in_order-cons, drop, if◌then◌else◌,
}
use mathlib.Core.Path.{subst}
use liteiclink.Serdes.GtxInit.{
  Fsm, Init, Input, power_down, drp, wait_pll_reset, wait_init_delay, wait_gtx_reset, wait_cdr_lock,
  align, wait_align, wait_first_align_done, wait_second_align_done, ready, act, out, next,
  fsm_reset, power_on,
}

-- With the buffer bypassed, the phase alignment has to be seen done, then not done, then done.
abbrev pub events : Bool → List (Input → Bool)
events true =
    (λ n. n.drp_done)
    ∷ (λ n. n.plllock)
    ∷ (λ n. n.init_delay_done)
    ∷ (λ n. n.resetdone)
    ∷ (λ n. n.cdr_lock_done)
    ∷ []
events false =
    (λ n. n.drp_done)
    ∷ (λ n. n.plllock)
    ∷ (λ n. n.init_delay_done)
    ∷ (λ n. n.resetdone)
    ∷ (λ n. n.cdr_lock_done)
    ∷ (λ n. n.dlysresetdone)
    ∷ (λ n. n.aligndone)
    ∷ (λ n. not n.aligndone)
    ∷ (λ n. n.aligndone)
    ∷ []

-- How many of the events a state has behind it.
abbrev seen : Fsm → Bool → ℕ
seen power_down r = 0
seen drp r = 0
seen wait_pll_reset r = 1
seen wait_init_delay r = 2
seen wait_gtx_reset r = 3
seen wait_cdr_lock r = 4
seen align r = 5
seen wait_align r = 5
seen wait_first_align_done r = 6
seen wait_second_align_done true = 7
seen wait_second_align_done false = 8
seen ready r = 9

abbrev left : Bool → Fsm → Bool → List (Input → Bool)
left b f r = drop (seen f r) (events b)

second-left :
    (r : Bool) (n : Input) (ns : List Input)
    → in_order
        (left false (if n.aligndone && not r then ready else wait_second_align_done) n.aligndone)
        ns
      ≡ true
    → in_order (left false wait_second_align_done r) (n ∷ ns) ≡ true
second-left true n ns h = ground arith
second-left false n ns h = ground arith

-- A cycle without reset: what it shows is the next event, if the FSM waits for one and goes on.
act-left :
    (b : Bool) (f : Fsm) (s : Init) (n : Input) (ns : List Input)
    → in_order (left b (act b f s n).1 n.aligndone) ns ≡ true
    → in_order (left b f s.aligndone_r) (n ∷ ns) ≡ true
unfolding act
act-left b power_down s n ns h = in_order-cons (events b) n ns h
act-left true f s n ns h = ground (arith, in_order-drop 1 (left true f s.aligndone_r) ns)
act-left false wait_second_align_done s n ns h = second-left s.aligndone_r n ns h
act-left false f s n ns h = ground (arith, in_order-drop 1 (left false f s.aligndone_r) ns)

next-left :
    (b : Bool) (s : Init) (n : Input) (ns : List Input)
    → in_order (left b (next b s n).fsm n.aligndone) ns ≡ true
    → in_order (left b s.fsm s.aligndone_r) (n ∷ ns) ≡ true
unfolding next
next-left b s n ns =
    elim (fsm_reset n)
      as (λ r.
        in_order (left b (if r then power_down else (act b s.fsm s n).1) n.aligndone) ns ≡ true
        → in_order (left b s.fsm s.aligndone_r) (n ∷ ns) ≡ true) [
          | true ↦
              λ h. in_order-cons _ n ns (in_order-drop (seen s.fsm s.aligndone_r) (events b) ns h)
          | false ↦ λ h. act-left b s.fsm s n ns h
        ]

clock-left :
    (b : Bool) (s : Init) (ns : List Input)
    → (clock (next b) s ns).fsm ≡ ready
    → in_order (left b s.fsm s.aligndone_r) ns ≡ true
unfolding next
clock-left true s [] h = rw h
clock-left false s [] h = rw h
clock-left b s (n ∷ ns) h = next-left b s n ns (clock-left b (next b s n) ns h)

-- When the initialisation is done, the cycles since power-on have shown, in this order: the DRP
-- done, the PLL locked, the delay of 500 ns over, the reset done and the clock recovered; and, if
-- the buffer is bypassed, the delay reset done and the phase alignment done twice, with a cycle
-- between in which it was not.
pub gtx_ready_order :
    (b : Bool) (ns : List Input)
    → (clock (next b) power_on ns).fsm ≡ ready
    → in_order (events b) ns ≡ true
gtx_ready_order b ns h = clock-left b power_on ns h

done-ready : (b : Bool) (s : Init) (n : Input) → (out b s n).done ≡ true → s.fsm ≡ ready
unfolding out act
done-ready b s n h = ground arith

pub restart-power_down :
    (b : Bool) (s : Init) (n : Input) → n.restart ≡ true → (next b s n).fsm ≡ power_down
unfolding next
restart-power_down b s n h = ground arith

-- The same from any cycle in which the initialisation is restarted.
pub gtx_restarted_order :
    (b : Bool) (s : Init) (m : Input) (ms : List Input) (n : Input)
    → m.restart ≡ true
    → (out b (clock (next b) s (m ∷ ms)) n).done ≡ true
    → in_order (events b) ms ≡ true
gtx_restarted_order b s m ms n h d =
    subst (λ f. in_order (left b f (next b s m).aligndone_r) ms ≡ true) (restart-power_down b s m h)
      (clock-left b (next b s m) ms (done-ready b (clock (next b) s (m ∷ ms)) n d))
