-- ===== src/Serdes/GtxInit.antt =====
-- `GTXInit` of liteiclink/serdes/gtx_7series_init.py, whose `GTXTXInit` and `GTXRXInit` are the same.
pub mod Order
pub mod Watchdog
use liteiclink.Base.{Bool, true, false, not, ◌&&◌, ◌||◌, if◌then◌else◌}

pub data Fsm : Type 0 where
  power_down drp wait_pll_reset wait_init_delay wait_gtx_reset wait_cdr_lock align wait_align
        wait_first_align_done wait_second_align_done ready :
      Fsm

-- The registers: the state of the FSM, `Xxphaligndone_r`, and the outputs that are deglitched.
pub record Init : Type 0 where
  pub fsm : Fsm
  pub aligndone_r : Bool
  pub gt_reset : Bool
  pub gt_pd : Bool
  pub dlysreset : Bool
  pub userrdy : Bool

-- The inputs of a cycle: those from the transceiver as they leave their synchronizers, and the
-- three timers.
pub record Input : Type 0 where
  pub restart : Bool
  pub plllock : Bool
  pub resetdone : Bool
  pub dlysresetdone : Bool
  pub aligndone : Bool
  pub drp_done : Bool
  pub init_delay_done : Bool
  pub cdr_lock_done : Bool
  pub watchdog_done : Bool

-- What the FSM drives in a cycle, and the waits of the timers that are not always waiting.
pub record Output : Type 0 where
  pub done : Bool
  pub pllreset : Bool
  pub drp_start : Bool
  pub gt_reset : Bool
  pub gt_pd : Bool
  pub dlysreset : Bool
  pub userrdy : Bool
  pub cdr_lock_wait : Bool

abbrev pub quiet : Output
quiet = record {
  done = false;
  pllreset = false;
  drp_start = false;
  gt_reset = false;
  gt_pd = false;
  dlysreset = false;
  userrdy = false;
  cdr_lock_wait = false;
}

abbrev pub rising : Init → Input → Bool
rising s n = n.aligndone && not s.aligndone_r

-- `fsm.act`: the outputs in a state, and the next state.
unfoldable pub act : Bool → Fsm → Init → Input → Output × Fsm
act buffer_enable power_down s n =
    (record quiet { gt_reset = true; gt_pd = true; pllreset = true }, drp)
act buffer_enable drp s n = (
  record quiet { gt_reset = true; pllreset = true; drp_start = true },
  if n.drp_done then wait_pll_reset else drp,
)
act buffer_enable wait_pll_reset s n =
    (record quiet { gt_reset = true }, if n.plllock then wait_init_delay else wait_pll_reset)
act buffer_enable wait_init_delay s n = (
  record quiet { gt_reset = true },
  if n.init_delay_done then wait_gtx_reset else wait_init_delay,
)
act buffer_enable wait_gtx_reset s n =
    (record quiet { userrdy = true }, if n.resetdone then wait_cdr_lock else wait_gtx_reset)
act buffer_enable wait_cdr_lock s n = (
  record quiet { userrdy = true; cdr_lock_wait = true },
  if n.cdr_lock_done then (if buffer_enable then ready else align) else wait_cdr_lock,
)
act buffer_enable align s n = (record quiet { userrdy = true; dlysreset = true }, wait_align)
act buffer_enable wait_align s n =
    (record quiet { userrdy = true }, if n.dlysresetdone then wait_first_align_done else wait_align)
act buffer_enable wait_first_align_done s n = (
  record quiet { userrdy = true },
  if rising s n then wait_second_align_done else wait_first_align_done,
)
act buffer_enable wait_second_align_done s n =
    (record quiet { userrdy = true }, if rising s n then ready else wait_second_align_done)
act buffer_enable ready s n =
    (record quiet { userrdy = true; done = true }, if n.restart then power_down else ready)

unfoldable pub out : Bool → Init → Input → Output
unfolding act
out buffer_enable s n = (act buffer_enable s.fsm s n).0

abbrev pub fsm_reset : Input → Bool
fsm_reset n = n.restart || n.watchdog_done

unfoldable pub watchdog_wait : Bool → Init → Input → Bool
unfolding out
watchdog_wait buffer_enable s n = not (fsm_reset n) && not (out buffer_enable s n).done

unfoldable pub next : Bool → Init → Input → Init
unfolding act
next buffer_enable s n =
    let (o, f) = act buffer_enable s.fsm s n in
    record {
      fsm = if fsm_reset n then power_down else f;
      aligndone_r = n.aligndone;
      gt_reset = o.gt_reset;
      gt_pd = o.gt_pd;
      dlysreset = o.dlysreset;
      userrdy = o.userrdy;
    }

abbrev pub power_on : Init
power_on = record {
  fsm = power_down;
  aligndone_r = true;
  gt_reset = false;
  gt_pd = false;
  dlysreset = false;
  userrdy = false;
}
