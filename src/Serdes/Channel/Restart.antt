-- ===== src/Serdes/Channel/Restart.antt =====
-- What disabling and enabling a channel of liteiclink/serdes does.
use liteiclink.Base.{
  true, false, List, [], ◌∷◌, map, ◌≡◌, refl, sym, arith, ap, ◌∙◌, clock, in_order,
}
use liteiclink.Serdes.Channel.{
  Kind, Config, Input, Channel, tx_restart, rx_restart, tx_input, rx_input, channel_out,
  channel_next,
}

module _ (k : Kind) (c : Config) where
  clock-tx :
      (s : Channel k) (ns : List (Input k))
      → (clock (channel_next k c) s ns).tx_init ≡ clock k.tx.next s.tx_init (map (tx_input k) ns)
  unfolding channel_next
  clock-tx s [] = refl
  clock-tx s (n ∷ ns) = clock-tx (channel_next k c s n) ns

  clock-rx :
      (s : Channel k) (ns : List (Input k))
      → (clock (channel_next k c) s ns).rx_init ≡ clock k.rx.next s.rx_init (map (rx_input k c) ns)
  unfolding channel_next
  clock-rx s [] = refl
  clock-rx s (n ∷ ns) = clock-rx (channel_next k c s n) ns

  tx_input-disabled :
      (m : Input k) → m.tx_enable ≡ false → tx_input k m ≡ k.tx.drive true m.pll_lock m.tx
  unfolding tx_input tx_restart
  tx_input-disabled m h = rw h refl

  rx_input-disabled :
      (m : Input k) → m.rx_enable ≡ false → rx_input k c m ≡ k.rx.drive true m.pll_lock m.rx
  unfolding rx_input rx_restart
  rx_input-disabled m h = ground arith

  -- Whatever the channel did before, of any of the six kinds: if its transmitter is ready, the cycles
  -- since it was last disabled have shown all the events that its initialisation depends on, in
  -- order.
  pub tx_reenabled :
      (s : Channel k) (m : Input k) (ms : List (Input k)) (n : Input k)
      → m.tx_enable ≡ false
      → (channel_out k c (clock (channel_next k c) s (m ∷ ms)) n).tx_ready ≡ true
      → in_order k.tx.events (map (tx_input k) ms) ≡ true
  unfolding channel_out
  tx_reenabled s m ms n h r =
      k.tx.restarted_order s.tx_init m.pll_lock m.tx (map (tx_input k) ms) (tx_input k n) (
        rw (sym (tx_input-disabled m h))
          (ap (λ t. k.tx.done t (tx_input k n)) (sym (clock-tx s (m ∷ ms))) ∙ r))

  rx-done :
      (s : Channel k) (n : Input k)
      → c.clock_aligner ≡ false
      → (channel_out k c s n).rx_ready ≡ true
      → k.rx.done s.rx_init (rx_input k c n) ≡ true
  unfolding channel_out
  rx-done s n a r = ground arith

  -- The same of the receiver of a channel without a clock aligner.
  pub rx_reenabled :
      (s : Channel k) (m : Input k) (ms : List (Input k)) (n : Input k)
      → c.clock_aligner ≡ false
      → m.rx_enable ≡ false
      → (channel_out k c (clock (channel_next k c) s (m ∷ ms)) n).rx_ready ≡ true
      → in_order k.rx.events (map (rx_input k c) ms) ≡ true
  rx_reenabled s m ms n a h r =
      k.rx.restarted_order s.rx_init m.pll_lock m.rx (map (rx_input k c) ms) (rx_input k c n) (
        rw (sym (rx_input-disabled m h)) (
          ap (λ t. k.rx.done t (rx_input k c n)) (sym (clock-rx s (m ∷ ms)))
          ∙ rx-done (clock (channel_next k c) s (m ∷ ms)) n a r))
