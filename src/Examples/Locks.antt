-- ===== src/Examples/Locks.antt =====
-- Runs of the search of liteiclink/serwb/phy.py over lines with a window.
use liteiclink.Base.{
  false, ℕ, Bool, ◌&&◌, ◌==◌, ltb, leb, ◌≡◌, refl, arith, inr, countdown, Eventually,
}
use liteiclink.Serwb.Phy.Master
use liteiclink.Serwb.Phy.Slave

-- Commas at the shift 2 of the phase 1 from the delay 10 to the delay 19.
abbrev comma_at : ℕ → ℕ → ℕ → Bool
comma_at q k d = q == 1 && (k == 2 && (leb 10 d && ltb d 20))

abbrev no_comma : ℕ → ℕ → ℕ → Bool
no_comma q k d = false

master_window : Master.Search.HasWindow (countdown 5) 32 2 comma_at 1 2 10 20
master_window = record {
  phases_fit = omega arith;
  phase_fits = omega arith;
  shift_fits = omega arith;
  silent_before = λ q l j d a b. ground arith;
  none_before = λ j d l h. ground arith;
  none_below = λ d h. ground arith;
  starts = refl;
  inside = λ d a b. ground arith;
  ends = inr refl;
  ordered = omega arith;
  fits = omega arith;
  wide = omega arith;
}

abbrev master_start : Master.Steps.Timed (countdown 5) 32 2 comma_at
master_start = record { core = Master.power_on; timer = 5 }

master_locks_example :
    Eventually
      (Master.Steps.timed_next (countdown 5) 32 2 comma_at)
      master_start
      (λ t. t.core ≡ Master.Steps.measured 1 Master.ready 10 20 15 2)
master_locks_example =
    Master.Search.master_locks (countdown 5) 32 2 comma_at 1 2 10 20 master_window master_start refl

slave_window : Slave.Search.HasWindow (countdown 5) 32 2 comma_at 1 2 10 20
slave_window = record {
  phases_fit = omega arith;
  phase_fits = omega arith;
  shift_fits = omega arith;
  silent_before = λ q l j d a b. ground arith;
  none_before = λ j d l h. ground arith;
  none_below = λ d h. ground arith;
  starts = refl;
  inside = λ d a b. ground arith;
  ends = inr refl;
  ordered = omega arith;
  fits = omega arith;
  wide = omega arith;
}

abbrev slave_start : Slave.Steps.Timed (countdown 5) 32 2 comma_at
slave_start = record { core = Slave.power_on; timer = 5 }

slave_locks_example :
    Eventually
      (Slave.Steps.timed_next (countdown 5) 32 2 comma_at)
      slave_start
      (λ t. t.core ≡ Slave.Steps.measured 1 Slave.send_pattern 10 20 15 2)
slave_locks_example =
    Slave.Search.slave_locks (countdown 5) 32 2 comma_at 1 2 10 20 slave_window slave_start refl

master_fails_example :
    Eventually
      (Master.Steps.timed_next (countdown 5) 32 2 no_comma)
      (record { core = Master.power_on; timer = 5 })
      (λ t. t.core.fsm ≡ Master.error)
master_fails_example =
    Master.Search.master_fails (countdown 5) 32 2 no_comma
      (record { core = Master.power_on; timer = 5 }) (omega arith) (omega arith) (omega arith)
      (λ q l j d a b. refl) refl
