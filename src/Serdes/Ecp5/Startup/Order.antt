-- ===== src/Serdes/Ecp5/Startup/Order.antt =====
-- What has to happen before SerdesInit of liteiclink/serdes/serdes_ecp5.py is ready.
use liteiclink.Base.{
  ℕ, Bool, true, false, not, ◌&&◌, List, [], ◌∷◌, ◌≡◌, arith, clock, in_order, in_order-cons,
  in_order-drop, drop, if◌then◌else◌, refl,
}
use liteiclink.Serdes.Ecp5.Startup.{
  Fsm, Input, reset_all, reset_rx_pcs_wait_tx_pll_lock, reset_pcs_wait_rx_cdr_lock, ready, act,
  next,
}

abbrev pub events : List (Input → Bool)
events =
    (λ n. n.timer_done)
    ∷ (λ n. n.timer_done && not n.tx_lol)
    ∷ (λ n. n.timer_done && not n.rx_lol)
    ∷ []

abbrev seen : Fsm → ℕ
seen reset_all = 0
seen reset_rx_pcs_wait_tx_pll_lock = 1
seen reset_pcs_wait_rx_cdr_lock = 2
seen ready = 3

-- A cycle without reset: what it shows is the next event, if the FSM goes on.
act-left :
    (f : Fsm) (n : Input) (ns : List Input)
    → in_order (drop (seen (act f n).1) events) ns ≡ true
    → in_order (drop (seen f) events) (n ∷ ns) ≡ true
unfolding act
act-left reset_all n ns h = ground (arith, in_order-drop 1 events ns)
act-left reset_rx_pcs_wait_tx_pll_lock n ns h = ground (arith, in_order-drop 1 (drop 1 events) ns)
act-left reset_pcs_wait_rx_cdr_lock n ns h = ground (arith, in_order-drop 1 (drop 2 events) ns)
act-left ready n ns h = refl

next-left :
    (f : Fsm) (n : Input) (ns : List Input)
    → in_order (drop (seen (next f n)) events) ns ≡ true
    → in_order (drop (seen f) events) (n ∷ ns) ≡ true
unfolding next
next-left f n ns =
    elim n.rst
      as (λ r.
        in_order (drop (seen (if r then reset_all else (act f n).1)) events) ns ≡ true
        → in_order (drop (seen f) events) (n ∷ ns) ≡ true) [
          | true ↦ λ h. in_order-cons _ n ns (in_order-drop (seen f) events ns h)
          | false ↦ λ h. act-left f n ns h
        ]

clock-left :
    (f : Fsm) (ns : List Input)
    → clock next f ns ≡ ready
    → in_order (drop (seen f) events) ns ≡ true
clock-left f [] h = rw h
clock-left f (n ∷ ns) h = next-left f n ns (clock-left (next f n) ns h)

-- When SerdesInit is ready, the cycles since it was in RESET-ALL have shown, in this order: the
-- timer done, the timer done with the transmitter locked, and the timer done with the receiver
-- locked.
pub ecp5_ready_order :
    (ns : List Input) → clock next reset_all ns ≡ ready → in_order events ns ≡ true
ecp5_ready_order ns h = clock-left reset_all ns h
