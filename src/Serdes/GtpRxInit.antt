-- ===== src/Serdes/GtpRxInit.antt =====
-- `GTPRXInit` of liteiclink/serdes/gtp_7series_init.py.
pub mod Order
pub mod Drp
pub mod Watchdog
use Prim.Native.Nat.{bit_and}
use liteiclink.Base.{ℕ, Bool, true, false, not, ◌&&◌, ◌||◌, if◌then◌else◌}

pub data Fsm : Type 0 where
  power_down wait_init_delay drp_read_issue drp_read_wait drp_mod_issue drp_mod_wait
        wait_pmarst_fall drp_restore_issue drp_restore_wait wait_gtp_reset align wait_align_done
        ready :
      Fsm

-- The registers: the state of the FSM, `drpvalue`, `rxpmaresetdone_r`, and the outputs that are
-- deglitched.
pub record Init : Type 0 where
  pub fsm : Fsm
  pub drpvalue : ℕ
  pub pmaresetdone_r : Bool
  pub gt_reset : Bool
  pub gt_pd : Bool
  pub dlysreset : Bool
  pub userrdy : Bool

-- The inputs of a cycle: those from the transceiver as they leave their synchronizers, `drp.rdy`
-- and `drp.do`, and the two timers.
pub record Input : Type 0 where
  pub restart : Bool
  pub plllock : Bool
  pub resetdone : Bool
  pub dlysresetdone : Bool
  pub syncdone : Bool
  pub pmaresetdone : Bool
  pub drp_rdy : Bool
  pub drp_do : ℕ
  pub init_delay_done : Bool
  pub watchdog_done : Bool

-- What the FSM drives in a cycle. `rxphalign` is never driven.
pub record Output : Type 0 where
  pub done : Bool
  pub drpmask : Bool
  pub drp_en : Bool
  pub drp_we : Bool
  pub gt_reset : Bool
  pub gt_pd : Bool
  pub dlysreset : Bool
  pub userrdy : Bool

abbrev pub quiet : Output
quiet = record {
  done = false;
  drpmask = false;
  drp_en = false;
  drp_we = false;
  gt_reset = false;
  gt_pd = false;
  dlysreset = false;
  userrdy = false;
}

abbrev held : Output
held = record quiet { gt_reset = true }

abbrev user : Output
user = record quiet { userrdy = true }

-- `fsm.act`: the outputs in a state, the next state, and `drpvalue` after the cycle.
unfoldable pub act : Bool → Fsm → Init → Input → Output × Fsm × ℕ
act buffer_enable power_down s n = (record held { gt_pd = true }, wait_init_delay, s.drpvalue)
act buffer_enable wait_init_delay s n =
    (held, if n.plllock && n.init_delay_done then drp_read_issue else wait_init_delay, s.drpvalue)
act buffer_enable drp_read_issue s n = (record held { drp_en = true }, drp_read_wait, s.drpvalue)
act buffer_enable drp_read_wait s n = (
  held,
  if n.drp_rdy then drp_mod_issue else drp_read_wait,
  if n.drp_rdy then n.drp_do else s.drpvalue,
)
act buffer_enable drp_mod_issue s n =
    (record held { drpmask = true; drp_en = true; drp_we = true }, drp_mod_wait, s.drpvalue)
act buffer_enable drp_mod_wait s n =
    (held, if n.drp_rdy then wait_pmarst_fall else drp_mod_wait, s.drpvalue)
act buffer_enable wait_pmarst_fall s n = (
  user,
  if s.pmaresetdone_r && not n.pmaresetdone then drp_restore_issue else wait_pmarst_fall,
  s.drpvalue,
)
act buffer_enable drp_restore_issue s n =
    (record user { drp_en = true; drp_we = true }, drp_restore_wait, s.drpvalue)
act buffer_enable drp_restore_wait s n =
    (user, if n.drp_rdy then wait_gtp_reset else drp_restore_wait, s.drpvalue)
act buffer_enable wait_gtp_reset s n = (
  user,
  if n.resetdone then (if buffer_enable then ready else align) else wait_gtp_reset,
  s.drpvalue,
)
act buffer_enable align s n = (
  record user { dlysreset = true },
  if n.dlysresetdone then wait_align_done else align,
  s.drpvalue,
)
act buffer_enable wait_align_done s n =
    (user, if n.syncdone then ready else wait_align_done, s.drpvalue)
act buffer_enable ready s n =
    (record user { done = true }, if n.restart then power_down else ready, s.drpvalue)

unfoldable pub out : Bool → Init → Input → Output
unfolding act
out buffer_enable s n = (act buffer_enable s.fsm s n).0

-- `drp.di`
unfoldable pub drp_di : Bool → Init → Input → ℕ
unfolding out
drp_di buffer_enable s n =
    if (out buffer_enable s n).drpmask then bit_and s.drpvalue 0xf7ff else s.drpvalue

abbrev pub fsm_reset : Input → Bool
fsm_reset n = n.restart || n.watchdog_done

unfoldable pub watchdog_wait : Bool → Init → Input → Bool
unfolding out
watchdog_wait buffer_enable s n = not (fsm_reset n) && not (out buffer_enable s n).done

-- The reset of the FSM resets `drpvalue` too, which it writes.
unfoldable pub next : Bool → Init → Input → Init
unfolding act
next buffer_enable s n =
    let (o, f, v) = act buffer_enable s.fsm s n in
    record {
      fsm = if fsm_reset n then power_down else f;
      drpvalue = if fsm_reset n then 0 else v;
      pmaresetdone_r = n.pmaresetdone;
      gt_reset = o.gt_reset;
      gt_pd = o.gt_pd;
      dlysreset = o.dlysreset;
      userrdy = o.userrdy;
    }

abbrev pub power_on : Init
power_on = record {
  fsm = power_down;
  drpvalue = 0;
  pmaresetdone_r = false;
  gt_reset = false;
  gt_pd = false;
  dlysreset = false;
  userrdy = false;
}
