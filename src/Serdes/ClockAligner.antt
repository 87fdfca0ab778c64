-- ===== src/Serdes/ClockAligner.antt =====
-- BruteforceClockAligner of liteiclink/serdes/clock_aligner.py, with `top` for `check_max_val`: the
-- flags in the domain of the receiver's clock, and the FSM in that of the transmitter's.
pub mod Flags
pub mod Aligns
use liteiclink.Base.{
  ℕ, zero, suc, ◌+◌, ◌-◌, ◌/◌, ◌%◌, ◌^◌, Bool, true, false, not, ◌&&◌, ◌||◌, ◌==◌, if◌then◌else◌,
}

-- The receiver: `comma_seen_rxclk`, `error_seen_rxclk` and `rx1cnt`.
pub record Rx : Type 0 where
  pub comma_seen : Bool
  pub error_seen : Bool
  pub rx1cnt : ℕ

-- `checks_reset.o` and `rxdata`.
pub record RxInput : Type 0 where
  pub checks_reset : Bool
  pub rxdata : ℕ

-- The sum of the lowest bits.
unfoldable pub ones : ℕ → ℕ → ℕ
ones zero n = 0
ones (suc w) n = n % 2 + ones w (n / 2)

unfoldable pub is_comma : ℕ → ℕ → Bool
is_comma comma rxdata = rxdata % 2 ^ 10 == comma || rxdata % 2 ^ 10 == 2 ^ 10 - 1 - comma % 2 ^ 10

unfoldable pub is_unbalanced : ℕ → Bool
is_unbalanced n = not (n == 4) && not (n == 5) && not (n == 6)

unfoldable pub rx_next : ℕ → Rx → RxInput → Rx
unfolding ones is_comma is_unbalanced
rx_next comma s n = record {
  comma_seen =
      if n.checks_reset then false else if is_comma comma n.rxdata then true else s.comma_seen;
  error_seen =
      if n.checks_reset then false else if is_unbalanced s.rx1cnt then true else s.error_seen;
  rx1cnt = ones 10 n.rxdata;
}

-- The transmitter.
pub data Fsm : Type 0 where
  wait_comma wait_noerror ready : Fsm

pub record Aligner : Type 0 where
  pub fsm : Fsm
  pub check_counter : ℕ
  pub check : Bool

-- The flags as they leave their synchronizers.
pub record Input : Type 0 where
  pub disable : Bool
  pub comma_seen : Bool
  pub error_seen : Bool

pub record Output : Type 0 where
  pub restart : Bool
  pub is_ready : Bool
  pub reset_check_counter : Bool
  pub checks_reset : Bool

abbrev quiet : Output
quiet = record {
  restart = false;
  is_ready = false;
  reset_check_counter = false;
  checks_reset = false;
}

-- `fsm.act`: the outputs in a state, and the next state.
unfoldable pub act : Fsm → Aligner → Input → Output × Fsm
act wait_comma s n =
    if s.check
    then (if n.comma_seen
        then (record quiet { checks_reset = true }, wait_noerror)
        else (record quiet { checks_reset = true; restart = true }, wait_comma))
    else (quiet, wait_comma)
act wait_noerror s n =
    if s.check
    then (if n.comma_seen && not n.error_seen
        then (record quiet { checks_reset = true }, ready)
        else (record quiet { checks_reset = true; restart = true }, wait_comma))
    else (quiet, wait_noerror)
act ready s n =
    let still = record quiet { reset_check_counter = true; is_ready = true } in
    if n.error_seen
    then (record still { checks_reset = true; restart = true }, wait_comma)
    else (still, ready)

unfoldable pub out : Aligner → Input → Output
unfolding act
out s n = (act s.fsm s n).0

unfoldable pub next : ℕ → Aligner → Input → Aligner
unfolding act out
next top s n =
    let reloads = (out s n).reset_check_counter || n.disable in
    record {
      fsm = (act s.fsm s n).1;
      check_counter =
          if reloads then top else if s.check_counter == 0 then top else s.check_counter - 1;
      check = if reloads then false else s.check_counter == 0;
    }

abbrev pub power_on : Aligner
power_on = record { fsm = wait_comma; check_counter = 0; check = false }
