-- ===== src/Serdes/GtyInit.antt =====
-- `GTYInit` of liteiclink/serdes/gty_ultrascale_init.py; `GTYTXInit` has `rx` = False, `GTYRXInit` has
-- `rx` = True.
pub mod Order
pub mod Watchdog
use liteiclink.Base.{Bool, true, false, not, ◌&&◌, ◌||◌, if◌then◌else◌}

pub data Fsm : Type 0 where
  power_down drp release_pll_reset release_gty_reset align wait_align wait_first_align_done
        wait_second_align_done ready :
      Fsm

-- The registers: the state of the FSM, `Xxphaligndone_r`, and the outputs that are deglitched.
pub record Init : Type 0 where
  pub fsm : Fsm
  pub aligndone_r : Bool
  pub gt_reset : Bool
  pub gt_pd : Bool
  pub dlysreset : Bool
  pub userrdy : Bool

-- The inputs of a cycle: those from the transceiver as they leave their synchronizers, and the
-- three timers.
pub record Input : Type 0 where
  pub restart : Bool
  pub plllock : Bool
  pub resetdone : Bool
  pub dlysresetdone : Bool
  pub aligndone : Bool
  pub syncdone : Bool
  pub drp_done : Bool
  pub pll_reset_done : Bool
  pub cdr_stable_done : Bool
  pub ready_timer_done : Bool

-- What the FSM drives in a cycle, and the waits of the timers that are not always waiting.
pub record Output : Type 0 where
  pub done : Bool
  pub pllreset : Bool
  pub drp_start : Bool
  pub gt_reset : Bool
  pub gt_pd : Bool
  pub dlysreset : Bool
  pub userrdy : Bool
  pub pll_reset_wait : Bool
  pub cdr_stable_wait : Bool

abbrev pub quiet : Output
quiet = record {
  done = false;
  pllreset = false;
  drp_start = false;
  gt_reset = false;
  gt_pd = false;
  dlysreset = false;
  userrdy = false;
  pll_reset_wait = false;
  cdr_stable_wait = false;
}

abbrev pub rising : Init → Input → Bool
rising s n = n.aligndone && not s.aligndone_r

-- Where the FSM goes once the transceiver is out of reset.
abbrev past_reset : Bool → Fsm
past_reset buffer_enable = if buffer_enable then ready else align

-- `fsm.act`: the outputs in a state, and the next state. The first argument is `rx`.
unfoldable pub act : Bool → Bool → Fsm → Init → Input → Output × Fsm
act rx buffer_enable power_down s n = (
  record quiet { gt_reset = true; gt_pd = true; pllreset = true; pll_reset_wait = true },
  if n.pll_reset_done then drp else power_down,
)
act rx buffer_enable drp s n = (
  record quiet { gt_reset = true; pllreset = true; drp_start = true },
  if n.drp_done then release_pll_reset else drp,
)
act rx buffer_enable release_pll_reset s n =
    (record quiet { gt_reset = true }, if n.plllock then release_gty_reset else release_pll_reset)
act true buffer_enable release_gty_reset s n = (
  record quiet { userrdy = true; cdr_stable_wait = true },
  if n.resetdone && n.cdr_stable_done then past_reset buffer_enable else release_gty_reset,
)
act false buffer_enable release_gty_reset s n = (
  record quiet { userrdy = true },
  if n.resetdone then past_reset buffer_enable else release_gty_reset,
)
act rx buffer_enable align s n = (record quiet { userrdy = true; dlysreset = true }, wait_align)
act true buffer_enable wait_align s n =
    (record quiet { userrdy = true }, if n.syncdone then ready else wait_align)
act false buffer_enable wait_align s n =
    (record quiet { userrdy = true }, if n.dlysresetdone then wait_first_align_done else wait_align)
act rx buffer_enable wait_first_align_done s n = (
  record quiet { userrdy = true },
  if rising s n then wait_second_align_done else wait_first_align_done,
)
act rx buffer_enable wait_second_align_done s n =
    (record quiet { userrdy = true }, if rising s n then ready else wait_second_align_done)
act rx buffer_enable ready s n =
    (record quiet { userrdy = true; done = true }, if n.restart then power_down else ready)

unfoldable pub out : Bool → Bool → Init → Input → Output
unfolding act
out rx buffer_enable s n = (act rx buffer_enable s.fsm s n).0

abbrev pub fsm_reset : Input → Bool
fsm_reset n = n.restart || n.ready_timer_done

unfoldable pub ready_timer_wait : Bool → Bool → Init → Input → Bool
unfolding out
ready_timer_wait rx buffer_enable s n = not (fsm_reset n) && not (out rx buffer_enable s n).done

unfoldable pub next : Bool → Bool → Init → Input → Init
unfolding act
next rx buffer_enable s n =
    let (o, f) = act rx buffer_enable s.fsm s n in
    record {
      fsm = if fsm_reset n then power_down else f;
      aligndone_r = n.aligndone;
      gt_reset = o.gt_reset;
      gt_pd = o.gt_pd;
      dlysreset = o.dlysreset;
      userrdy = o.userrdy;
    }

abbrev pub power_on : Init
power_on = record {
  fsm = power_down;
  aligndone_r = true;
  gt_reset = false;
  gt_pd = false;
  dlysreset = false;
  userrdy = false;
}
