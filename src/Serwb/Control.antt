-- ===== src/Serwb/Control.antt =====
-- `_SerdesControl` of liteiclink/serwb/genphy.py and of liteiclink/serwb/phy.py, which share the
-- resets and the PRBS checker and differ in the status that they show.
pub mod Prbs
use liteiclink.Base.{ℕ, ◌+◌, ◌%◌, ◌^◌, Bool, true, false, ◌==◌, if◌then◌else◌}

-- `mode`
pub data Mode : Type 0 where
  master slave : Mode

pub data PrbsFsm : Type 0 where
  idle check : PrbsFsm

-- The registers: `init.reset`, `serdes.reset` and those of the PRBS checker.
pub record Control : Type 0 where
  pub init_reset : Bool
  pub serdes_reset : Bool
  pub fsm : PrbsFsm
  pub cycles : ℕ
  pub errors : ℕ

-- `reset.re`, `serdes.rx.idle`, `prbs_start.re`, `prbs_cycles.storage` and `prbs_error`.
pub record Input : Type 0 where
  pub reset_re : Bool
  pub rx_idle : Bool
  pub start_re : Bool
  pub storage : ℕ
  pub prbs_error : Bool

abbrev pub u32 : ℕ → ℕ
u32 n = n % 2 ^ 32

unfoldable pub prbs_act : PrbsFsm → Control → Input → Control
prbs_act idle c n =
    if n.start_re then record c { fsm = check; cycles = 0; errors = 0 } else record c { cycles = 0 }
prbs_act check c n = record c {
  fsm = if c.cycles == n.storage then idle else check;
  cycles = u32 (c.cycles + 1);
  errors = if n.prbs_error then u32 (c.errors + 1) else c.errors;
}

-- In master mode the reset comes from the CSR; in slave mode it comes from the link.
unfoldable pub resets : Mode → Control → Input → Control
resets master c n = record c { init_reset = n.reset_re }
resets slave c n = record c { init_reset = n.rx_idle; serdes_reset = n.rx_idle }

unfoldable pub control_next : Mode → Control → Input → Control
unfolding prbs_act resets
control_next mode c n = resets mode (prbs_act c.fsm c n) n
