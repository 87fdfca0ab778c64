-- ===== src/Examples/Ecp5s.antt =====
-- Runs of the circuits of liteiclink/serdes/serdes_ecp5.py.
use liteiclink.Base.{
  ℕ, ◌+◌, ◌*◌, Bool, true, false, ◌++◌, ◌≡◌, ◌≢◌, refl, arith, clock, ◌==◌, if◌then◌else◌,
  countdown, Eventually,
}
use liteiclink.Serdes.Ecp5.Sci.{Settings, power_on}
use liteiclink.Serdes.Ecp5.Sci.Device.{SciDevice, System, system_next}
use liteiclink.Serdes.Ecp5.Sci.Rounds.{Resting, rounds, configured, channel, rounds_configure}
use liteiclink.Serdes.Ecp5.Sci.Access.{writing, reading, access_roundtrip}
use liteiclink.Serdes.Ecp5.Startup.{Fsm, Input, reset_all, ready, Timed, timed_next}
use liteiclink.Serdes.Ecp5.Startup.Timing.{locked, locked_next, ecp5_gets_ready, ecp5_short_reset}

-- Registers that are bytes in a table.
abbrev place : Bool → Bool → ℕ → ℕ
place p q a = (if p then 2 else 0) + (if q then 1 else 0) + 4 * a

abbrev stored : (ℕ → ℕ) → ℕ → ℕ → ℕ → ℕ
stored d k v j = if j == k then v else d j

stored-same : (d : ℕ → ℕ) (k v : ℕ) → stored d k v k ≡ v
stored-same d k v = ground arith

stored-other :
    (d : ℕ → ℕ) (p q : Bool) (a b v : ℕ)
    → a ≢ b
    → stored d (place p q a) v (place p q b) ≡ d (place p q b)
stored-other d p q a b v h = ground arith

abbrev table : SciDevice
table = record {
  State = ℕ → ℕ;
  read = λ d p q a. d (place p q a);
  write = λ d p q a v. stored d (place p q a) v;
  read-write = λ d p q a v. stored-same d (place p q a) v;
  read-write_ne = stored-other;
}

abbrev settings : Settings
settings = record {
  loopback = true;
  rx_polarity = false;
  tx_idle = true;
  tx_polarity = true;
  rx_cdr_hold = false;
}

abbrev start : System table
start = record { core = power_on; device = λ j. 0x55 }

start-Resting : Resting table start
start-Resting = record { at_idle = refl; sci_at_idle = refl }

rounds_configure_example :
    let t = clock (system_next table) start (rounds 2 true settings) in
    Resting table t × (channel table true t ≡ configured settings (channel table true start))
rounds_configure_example = rounds_configure table true settings start 1 start-Resting

access_roundtrip_example :
    let t =
      clock
        (system_next table)
        start
        (writing true settings true 0x12 0x34 ++ reading true settings true 0x12 0) in
    (t.core.status ≡ 0x34)
    × (t.device ≡ SciDevice.write table start.device true false 0x12 0x34)
    × Resting table t
access_roundtrip_example = access_roundtrip true settings true 0x12 table start 0x34 0 start-Resting

abbrev in_reset : Timed (countdown 1024)
in_reset = record { fsm = reset_all; timer = 1024 }

ecp5_gets_ready_example : Eventually (locked_next (countdown 1024)) in_reset (λ t. t.fsm ≡ ready)
ecp5_gets_ready_example = ecp5_gets_ready (countdown 1024) in_reset refl

abbrev long_ready : Timed (countdown 1024)
long_ready = record { fsm = ready; timer = 0 }

abbrev lost : Input
lost = record locked { tx_lol = true }

ecp5_short_reset_example :
    ((timed_next (countdown 1024) long_ready lost).fsm ≡ reset_all)
    × ((timed_next (countdown 1024) (timed_next (countdown 1024) long_ready lost) lost).fsm
        ≡ Fsm.reset_rx_pcs_wait_tx_pll_lock)
ecp5_short_reset_example =
    ecp5_short_reset (countdown 1024) long_ready lost lost (λ t h. ground arith) refl refl refl refl
      refl refl
