-- ===== src/Base/Timer.antt =====
-- `WaitTimer(t)` of litex.gen.genlib.misc, which the circuits instantiate and do not implement: an
-- interface with the behaviour that they rely on. `done` is read from the registers, `tick` is
-- one clock cycle with the given level on `wait`.
use liteiclink.Base.Tests.{if◌then◌else◌, ◌==◌}
use Prim.Native.Nat.{ℕ, zero, suc, ◌-◌}
use mathlib.Core.Path.{◌≡◌, refl}
use mathlib.Core.Bool.{Bool, true, false}
use native.Mathlib.Omega.{arith}

pub record WaitTimer : Type 1 where
  pub State : Type 0
  pub done : State → Bool
  pub tick : Bool → State → State
  -- how many more cycles of `wait` the timer needs
  pub remaining : State → ℕ
  pub done-remaining : (s : State) → remaining s ≡ 0 → done s ≡ true
  pub tick-remaining : (s : State) (n : ℕ) → remaining s ≡ suc n → remaining (tick true s) ≡ n

pub countdown-done : (s : ℕ) → s ≡ 0 → (s == 0) ≡ true
countdown-done s h = ground arith

pub countdown-tick : (s n : ℕ) → s ≡ suc n → s - 1 ≡ n
countdown-tick s n h = omega arith

-- A timer of `t` cycles that counts down while `wait` is held and reloads when it is released.
abbrev pub countdown : ℕ → WaitTimer
countdown t = record {
  State = ℕ;
  done = λ s. s == 0;
  tick = λ wait s. if wait then s - 1 else t;
  remaining = λ s. s;
  done-remaining = countdown-done;
  tick-remaining = countdown-tick;
}

-- While it is not done, a cycle of `wait` brings the timer one cycle closer.
pub tick-busy :
    (T : WaitTimer) (s : T.State)
    → T.done s ≡ false
    → T.remaining s ≡ suc (T.remaining (T.tick true s))
tick-busy T s busy = split (T.remaining s) refl
  where
    split : (k : ℕ) → T.remaining s ≡ k → k ≡ suc (T.remaining (T.tick true s))
    split zero e = cc (T.done-remaining s e)
    split (suc k) e = omega (arith, T.tick-remaining s k e)

-- More of what a `WaitTimer(period)` does: `remaining` counts down from `period` to 0, where it stays
-- as long as `wait` is held, and starts again when `wait` is released or the timer is reset.
pub record ExactTimer (period : ℕ) : Type 1 where
  pub State : Type 0
  pub done : State → Bool
  pub tick : Bool → State → State
  pub reset : State
  pub remaining : State → ℕ
  pub done-remaining : (s : State) → done s ≡ (remaining s == 0)
  pub remaining-wait : (s : State) → remaining (tick true s) ≡ remaining s - 1
  pub remaining-release : (s : State) → remaining (tick false s) ≡ period
  pub remaining-reset : remaining reset ≡ period

abbrev pub exact_countdown : (t : ℕ) → ExactTimer t
exact_countdown t = record {
  State = ℕ;
  done = λ s. s == 0;
  tick = λ wait s. if wait then s - 1 else t;
  reset = t;
  remaining = λ s. s;
  done-remaining = λ s. refl;
  remaining-wait = λ s. refl;
  remaining-release = λ s. refl;
  remaining-reset = refl;
}
