-- ===== src/Bench/Sim.antt =====
-- bench/serwb/sim.py: the generators, checkers and stress circuits that a simulated link is driven by.
-- The Wishbone buses, parts of LiteX, are taken by their signals.
pub mod Counters
pub mod Stress
pub mod Delays
use liteiclink.Base.{
  ℕ, ◌+◌, ◌-◌, ◌%◌, ◌^◌, Bool, true, false, not, ◌&&◌, ◌==◌, Option, none, some, if◌then◌else◌,
}

abbrev pub u32 : ℕ → ℕ
u32 n = n % 2 ^ 32

-- EndpointCounterGenerator: `endpoint.valid` and `endpoint.data`.
pub record Generator : Type 0 where
  pub valid : Bool
  pub word : ℕ

-- `ready` of the link, and `endpoint.ready`.
pub record GeneratorIn : Type 0 where
  pub link_ready : Bool
  pub ready : Bool

unfoldable pub generator_next : Generator → GeneratorIn → Generator
generator_next s n = record {
  valid = n.link_ready;
  word = if s.valid && n.ready then u32 (s.word + 1) else s.word;
}

abbrev pub generator_reset : Generator
generator_reset = record { valid = false; word = 0 }

-- EndpointCounterChecker: `endpoint.ready` and `last_data`.
pub record Checker : Type 0 where
  pub ready : Bool
  pub last : ℕ

-- `ready` of the link, `endpoint.valid` and `endpoint.data`.
pub record CheckerIn : Type 0 where
  pub link_ready : Bool
  pub valid : Bool
  pub word : ℕ

unfoldable pub checker_takes : Checker → CheckerIn → Bool
checker_takes s n = n.valid && s.ready

-- Whether the error is displayed. The difference has 32 bits, as in the hardware.
unfoldable pub checker_error : Checker → CheckerIn → Bool
unfolding checker_takes
checker_error s n = checker_takes s n && not (u32 (n.word + 2 ^ 32 - 1) == s.last)

unfoldable pub checker_next : Checker → CheckerIn → Checker
unfolding checker_takes
checker_next s n = record {
  ready = n.link_ready;
  last = if checker_takes s n then n.word else s.last;
}

abbrev pub checker_reset : Checker
checker_reset = record { ready = false; last = 2 ^ 32 - 1 }

-- `serwb_fsm`, which delays the acknowledge of the memory.
pub data DelayFsm : Type 0 where
  idle wait ack : DelayFsm

pub record Delay : Type 0 where
  pub fsm : DelayFsm
  pub count : ℕ

-- The input is `bus.stb & bus.cyc`, the output `bus.ack`.
unfoldable pub delay_act : DelayFsm → Delay → Bool → Bool × Delay
delay_act idle s request = if request then (false, record { fsm = wait; count = 0 }) else (false, s)
delay_act wait s request =
    (false, record { fsm = if s.count == 16 - 1 then ack else wait; count = u32 (s.count + 1) })
delay_act ack s request = (true, record s { fsm = idle })

unfoldable pub delay_next : Delay → Bool → Delay
unfolding delay_act
delay_next s request = (delay_act s.fsm s request).1

-- `alt_fsm`, `write_count` and `read_count`.
pub data AltFsm : Type 0 where
  idle write write_check read read_check : AltFsm

pub record Alt : Type 0 where
  pub fsm : AltFsm
  pub writes : ℕ
  pub reads : ℕ

-- The access that is on the bus: `we`, if there is one.
unfoldable pub alt_access : AltFsm → Option Bool
alt_access write = some true
alt_access read = some false
alt_access _ = none

-- The input is `alt_bus.ack`.
unfoldable pub alt_act : AltFsm → Alt → Bool → Alt
alt_act idle s acked = record s { fsm = write }
alt_act write s acked =
    if acked then record s { fsm = write_check; writes = u32 (s.writes + 1) } else s
alt_act write_check s acked =
    if s.writes == 4 then record s { fsm = read; writes = 0 } else record s { fsm = write }
alt_act read s acked = if acked then record s { fsm = read_check; reads = u32 (s.reads + 1) } else s
alt_act read_check s acked =
    if s.reads == 4 then record s { fsm = idle; reads = 0 } else record s { fsm = read }

unfoldable pub alt_next : Alt → Bool → Alt
unfolding alt_act
alt_next s acked = alt_act s.fsm s acked

abbrev pub alt_reset : Alt
alt_reset = record { fsm = idle; writes = 0; reads = 0 }

-- `latency_fsm` and `latency_count`.
pub data LatencyFsm : Type 0 where
  idle m2s_measure ack_measure s2m_measure : LatencyFsm

pub record Latency : Type 0 where
  pub fsm : LatencyFsm
  pub count : ℕ

-- `bus.stb & bus.cyc` and `bus.ack` of the master's and of the slave's core.
pub record LatencyIn : Type 0 where
  pub master_request : Bool
  pub slave_request : Bool
  pub slave_ack : Bool
  pub master_ack : Bool

-- Whether the count is displayed, and the registers after the cycle.
unfoldable pub latency_act : LatencyFsm → Latency → LatencyIn → Bool × Latency
latency_act idle s n =
    (false, record { fsm = if n.master_request then m2s_measure else idle; count = 0 })
latency_act m2s_measure s n =
    if n.slave_request
    then (true, record { fsm = ack_measure; count = 0 })
    else (false, record s { count = u32 (s.count + 1) })
latency_act ack_measure s n =
    if n.slave_ack
    then (true, record { fsm = s2m_measure; count = 0 })
    else (false, record s { count = u32 (s.count + 1) })
latency_act s2m_measure s n =
    if n.master_ack
    then (true, record { fsm = idle; count = 0 })
    else (false, record s { count = u32 (s.count + 1) })

unfoldable pub latency_next : Latency → LatencyIn → Latency
unfolding latency_act
latency_next s n = (latency_act s.fsm s n).1
