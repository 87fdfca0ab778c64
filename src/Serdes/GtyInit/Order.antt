-- ===== src/Serdes/GtyInit/Order.antt =====
-- What has to happen before the initialisation of liteiclink/serdes/gty_ultrascale_init.py is done.
use liteiclink.Base.{
  ℕ, Bool, true, false, not, ◌&&◌, List, [], ◌∷◌, ◌≡◌, refl, arith, clock, in_order, in_order-drop,
  in_order-cons, drop, if◌then◌else◌,
}
use mathlib.Core.Path.{subst}
use liteiclink.Serdes.GtyInit.{
  Fsm, Init, Input, power_down, drp, release_pll_reset, release_gty_reset, align, wait_align,
  wait_first_align_done, wait_second_align_done, ready, act, out, next, fsm_reset, power_on,
}

-- The release of the transceiver: the receiver's clock recovery has to be stable too.
abbrev pub released : Bool → Input → Bool
released true n = n.resetdone && n.cdr_stable_done
released false n = n.resetdone

-- The alignment with the buffer bypassed: the receiver waits for its synchronisation, the
-- transmitter for the delay reset and for the phase alignment done, then not done, then done.
abbrev pub alignment : Bool → List (Input → Bool)
alignment true = (λ n. n.syncdone) ∷ []
alignment false =
    (λ n. n.dlysresetdone) ∷ (λ n. n.aligndone) ∷ (λ n. not n.aligndone) ∷ (λ n. n.aligndone) ∷ []

abbrev pub events : Bool → Bool → List (Input → Bool)
events rx b =
    (λ n. n.pll_reset_done)
    ∷ (λ n. n.drp_done)
    ∷ (λ n. n.plllock)
    ∷ released rx
    ∷ (if b then [] else alignment rx)

-- How many of the events a state has behind it.
abbrev seen : Fsm → Bool → ℕ
seen power_down r = 0
seen drp r = 1
seen release_pll_reset r = 2
seen release_gty_reset r = 3
seen align r = 4
seen wait_align r = 4
seen wait_first_align_done r = 5
seen wait_second_align_done true = 6
seen wait_second_align_done false = 7
seen ready r = 8

abbrev left : Bool → Bool → Fsm → Bool → List (Input → Bool)
left rx b f r = drop (seen f r) (events rx b)

second-left :
    (r : Bool) (n : Input) (ns : List Input)
    → in_order
        (left false false
          (if n.aligndone && not r then ready else wait_second_align_done)
          n.aligndone)
        ns
      ≡ true
    → in_order (left false false wait_second_align_done r) (n ∷ ns) ≡ true
second-left true n ns h = ground arith
second-left false n ns h = ground arith

-- A receiver, and a transmitter with its buffer, have nothing left to see in that state.
receiver-left :
    (b r : Bool) (n : Input) (ns : List Input)
    → in_order (left true b wait_second_align_done r) (n ∷ ns) ≡ true
receiver-left true true n ns = refl
receiver-left true false n ns = refl
receiver-left false true n ns = refl
receiver-left false false n ns = refl

buffered-left :
    (r : Bool) (n : Input) (ns : List Input)
    → in_order (left false true wait_second_align_done r) (n ∷ ns) ≡ true
buffered-left true n ns = refl
buffered-left false n ns = refl

-- A cycle without reset: what it shows is the next event, if the FSM waits for one and goes on.
act-left :
    (rx b : Bool) (f : Fsm) (s : Init) (n : Input) (ns : List Input)
    → in_order (left rx b (act rx b f s n).1 n.aligndone) ns ≡ true
    → in_order (left rx b f s.aligndone_r) (n ∷ ns) ≡ true
unfolding act
act-left true b wait_second_align_done s n ns h = receiver-left b s.aligndone_r n ns
act-left false true wait_second_align_done s n ns h = buffered-left s.aligndone_r n ns
act-left true true f s n ns h = ground (arith, in_order-drop 1 (left true true f s.aligndone_r) ns)
act-left true false f s n ns h =
    ground (arith, in_order-drop 1 (left true false f s.aligndone_r) ns)
act-left false true f s n ns h =
    ground (arith, in_order-drop 1 (left false true f s.aligndone_r) ns)
act-left false false wait_second_align_done s n ns h = second-left s.aligndone_r n ns h
act-left false false f s n ns h =
    ground (arith, in_order-drop 1 (left false false f s.aligndone_r) ns)

next-left :
    (rx b : Bool) (s : Init) (n : Input) (ns : List Input)
    → in_order (left rx b (next rx b s n).fsm n.aligndone) ns ≡ true
    → in_order (left rx b s.fsm s.aligndone_r) (n ∷ ns) ≡ true
unfolding next
next-left rx b s n ns =
    elim (fsm_reset n)
      as (λ r.
        in_order (left rx b (if r then power_down else (act rx b s.fsm s n).1) n.aligndone) ns
          ≡ true
        → in_order (left rx b s.fsm s.aligndone_r) (n ∷ ns) ≡ true) [
          | true ↦ λ h.
              in_order-cons _ n ns (in_order-drop (seen s.fsm s.aligndone_r) (events rx b) ns h)
          | false ↦ λ h. act-left rx b s.fsm s n ns h
        ]

clock-left :
    (rx b : Bool) (s : Init) (ns : List Input)
    → (clock (next rx b) s ns).fsm ≡ ready
    → in_order (left rx b s.fsm s.aligndone_r) ns ≡ true
unfolding next
clock-left true true s [] h = rw h
clock-left true false s [] h = rw h
clock-left false true s [] h = rw h
clock-left false false s [] h = rw h
clock-left rx b s (n ∷ ns) h = next-left rx b s n ns (clock-left rx b (next rx b s n) ns h)

-- When the initialisation is done, the cycles since power-on have shown, in this order: the PLL
-- reset for its time, the DRP done, the PLL locked and the reset done, for a receiver together with
-- a stable clock recovery; and, if the buffer is bypassed, for a receiver its synchronisation, and
-- for a transmitter the delay reset done and the phase alignment done twice, with a cycle between
-- in which it was not.
pub gty_ready_order :
    (rx b : Bool) (ns : List Input)
    → (clock (next rx b) power_on ns).fsm ≡ ready
    → in_order (events rx b) ns ≡ true
gty_ready_order rx b ns h = clock-left rx b power_on ns h

done-ready : (rx b : Bool) (s : Init) (n : Input) → (out rx b s n).done ≡ true → s.fsm ≡ ready
unfolding out act
done-ready rx b s n h = ground arith

pub restart-power_down :
    (rx b : Bool) (s : Init) (n : Input) → n.restart ≡ true → (next rx b s n).fsm ≡ power_down
unfolding next
restart-power_down rx b s n h = ground arith

-- The same from any cycle in which the initialisation is restarted.
pub gty_restarted_order :
    (rx b : Bool) (s : Init) (m : Input) (ms : List Input) (n : Input)
    → m.restart ≡ true
    → (out rx b (clock (next rx b) s (m ∷ ms)) n).done ≡ true
    → in_order (events rx b) ms ≡ true
gty_restarted_order rx b s m ms n h d =
    subst (λ f. in_order (left rx b f (next rx b s m).aligndone_r) ms ≡ true)
      (restart-power_down rx b s m h)
      (clock-left rx b (next rx b s m) ms (done-ready rx b (clock (next rx b) s (m ∷ ms)) n d))
