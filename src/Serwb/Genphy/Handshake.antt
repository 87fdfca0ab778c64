-- ===== src/Serwb/Genphy/Handshake.antt =====
-- The two ends of a link of liteiclink/serwb/genphy.py together: the initialisation of the master and
-- of the slave with their timers, the reset of the slave by the link, and what each transmitter
-- sends to the receiver of the other end.
pub mod Recall
pub mod Settle
pub mod SlaveSearch
pub mod MasterSearch
pub mod Joint
use liteiclink.Base.{ℕ, suc, ◌+◌, ◌-◌, ◌*◌, ◌≤◌, Bool, true, false, ◌≡◌, ExactTimer, if◌then◌else◌}
use liteiclink.Serwb.Genphy.Master
use liteiclink.Serwb.Genphy.Slave

-- What a transmitter sends: `tx.idle`, `tx.comma`, or the words of its sink.
pub data Symbol : Type 0 where
  idle comma words : Symbol

-- A line from a transmitter to a receiver, with the pads and the converters, encoders, aligner and
-- detectors at its ends: an interface. `step` is a cycle in which a symbol is sent, the transmitter
-- or the receiver is reset, or the receiver is told to shift; `sees_idle` and `sees_comma` are
-- `rx.idle` and `rx.comma`.
pub record Line : Type 1 where
  pub State : Type 0
  pub step : Symbol → (tx_reset rx_reset shift : Bool) → State → State
  pub sees_idle : State → Bool
  pub sees_comma : State → Bool
  -- whether the receiver is aligned to the words of the line after that many shifts more
  pub aligned : State → ℕ → Bool
  pub aligned-step :
      (x : Symbol) (s : State) (k : ℕ) → aligned (step x false false false s) k ≡ aligned s k
  pub aligned-shift :
      (x : Symbol) (s : State) (k : ℕ) → aligned (step x false false true s) k ≡ aligned s (suc k)
  -- how many cycles of a symbol it takes until the receiver sees it, and how many cycles without
  -- idle it takes until the receiver sees no idle any more: both are at most `latency`
  pub settled : Symbol → State → ℕ
  pub lingering : State → ℕ
  pub latency : ℕ
  pub settled-le : (x : Symbol) (s : State) → settled x s ≤ latency
  pub lingering-le : (s : State) → lingering s ≤ latency
  -- a shift takes the cycle in which it is, and a transmitter in reset sends idle
  pub settled-step :
      (x : Symbol) (s : State) → settled x (step x false false false s) ≤ settled x s - 1
  pub settled-idle :
      (t : Bool) (s : State) → settled idle (step idle t false false s) ≤ settled idle s - 1
  pub settled-shift : (s : State) → settled idle (step idle false false true s) ≤ settled idle s
  pub lingering-falls :
      (r : Bool) (s : State) → lingering (step comma false r false s) ≤ lingering s - 1
  pub lingering-comma :
      (h : Bool) (s : State) → lingering (step comma false false h s) ≤ lingering s
  pub lingering-words :
      (h : Bool) (s : State) → lingering (step words false false h s) ≤ lingering s
  pub idle_seen : (s : State) → settled idle s ≡ 0 → sees_idle s ≡ true
  pub idle_over : (s : State) → lingering s ≡ 0 → sees_idle s ≡ false
  pub comma_seen : (s : State) → settled comma s ≡ 0 → sees_comma s ≡ aligned s 0
  pub comma_over : (s : State) → settled words s ≡ 0 → aligned s 0 ≡ true → sees_comma s ≡ false

-- Two lines, and the timers of both ends, whose `init_timeout` leaves room for the latencies.
pub record Setup : Type 1 where
  pub timeout : ℕ
  pub timer : ExactTimer timeout
  -- from the master to the slave, and back
  pub down : Line
  pub up : Line
  pub room : 2 * down.latency + up.latency + 8 ≤ timeout

-- `serdes.tx.idle` and `serdes.tx.comma`
abbrev pub symbol : (tx_idle tx_comma : Bool) → Symbol
symbol tx_idle tx_comma = if tx_idle then idle else if tx_comma then comma else words

module _ (e : Setup) where
  -- `slave_reset` stands for `init.reset` and `serdes.reset` of the slave, which have the same value.
  pub record Ends : Type 0 where
    pub master : Master.Master
    pub master_timer : ExactTimer.State e.timer
    pub slave : Slave.Slave
    pub slave_timer : ExactTimer.State e.timer
    pub slave_reset : Bool
    pub down : Line.State e.down
    pub up : Line.State e.up

  abbrev pub master_in : Ends → Master.Input
  master_in s = record {
    done = e.timer.done s.master_timer;
    rx_idle = e.up.sees_idle s.up;
    rx_comma = e.up.sees_comma s.up;
  }

  abbrev pub slave_in : Ends → Slave.Input
  slave_in s = record { done = e.timer.done s.slave_timer; rx_comma = e.down.sees_comma s.down }

  -- A cycle at both ends, without a reset of the master. A transmitter in reset sends zeroes.
  unfoldable pub ends_next : Ends → Ends
  ends_next s =
      let m = Master.out s.master (master_in s) in
      let o = Slave.out s.slave (slave_in s) in
      record {
        master = Master.next s.master (master_in s);
        master_timer = e.timer.tick m.timer_wait s.master_timer;
        slave = if s.slave_reset then Slave.reset else Slave.next s.slave (slave_in s);
        slave_timer =
            if s.slave_reset then e.timer.reset else e.timer.tick o.timer_wait s.slave_timer;
        slave_reset = e.down.sees_idle s.down;
        down = e.down.step (symbol m.tx_idle m.tx_comma) false s.slave_reset o.rx_shift s.down;
        up =
            e.up.step (if s.slave_reset then idle else symbol o.tx_idle o.tx_comma) s.slave_reset
              false m.rx_shift s.up;
      }
