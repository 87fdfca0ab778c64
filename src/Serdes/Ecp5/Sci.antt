-- ===== src/Serdes/Ecp5/Sci.antt =====
-- SerDesECP5SCI and SerDesECP5SCIReconfig of liteiclink/serdes/serdes_ecp5.py: an access to the
-- registers of the transceiver, and the FSM that keeps writing its settings there.
pub mod Device
pub mod Rounds
pub mod Access
use liteiclink.Base.{ℕ, ◌+◌, ◌*◌, ◌/◌, ◌%◌, ◌^◌, Bool, true, false, not, ◌&&◌, ◌==◌, if◌then◌else◌}

-- SerDesECP5SCI: the state of its FSM and `dat_r`.
pub data SciFsm : Type 0 where
  sci_idle sci_write sci_read : SciFsm

pub record Sci : Type 0 where
  pub fsm : SciFsm
  pub dat_r : ℕ

-- `re` and `we`, and `sci_rdata`.
pub record SciInput : Type 0 where
  pub re : Bool
  pub we : Bool
  pub rdata : ℕ

pub record SciOutput : Type 0 where
  pub done : Bool
  pub sci_rd : Bool
  pub sci_wrn : Bool

unfoldable pub sci_act : SciFsm → Sci → SciInput → SciOutput × Sci
sci_act sci_idle s n =
    if n.we
    then (record { done = true; sci_rd = false; sci_wrn = true }, record s { fsm = sci_write })
    else (if n.re
        then (record { done = true; sci_rd = true; sci_wrn = true }, record s { fsm = sci_read })
        else (record { done = true; sci_rd = false; sci_wrn = true }, s))
sci_act sci_write s n =
    (record { done = false; sci_rd = false; sci_wrn = false }, record s { fsm = sci_idle })
sci_act sci_read s n = (
  record { done = false; sci_rd = true; sci_wrn = true },
  record { fsm = sci_idle; dat_r = n.rdata },
)

-- `sci.done`, which does not depend on the request.
unfoldable pub sci_done : SciFsm → Bool
sci_done sci_idle = true
sci_done _ = false

-- SerDesECP5SCIReconfig.
pub data Fsm : Type 0 where
  idle read write read_ch_01 write_ch_01 read_ch_02 write_ch_02 read_ch_15 write_ch_15 read_ch_18
        write_ch_18 :
      Fsm

-- The encoding of the states, in the order of `fsm.act`.
unfoldable pub code : Fsm → ℕ
code idle = 0
code read = 1
code write = 2
code read_ch_01 = 3
code write_ch_01 = 4
code read_ch_02 = 5
code write_ch_02 = 6
code read_ch_15 = 7
code write_ch_15 = 8
code read_ch_18 = 9
code write_ch_18 = 10

-- The registers: the state of the FSM, `last_fsm_state`, `data`, `dat_r.status`, and those of `sci`.
pub record Reconfig : Type 0 where
  pub fsm : Fsm
  pub last_fsm_state : ℕ
  pub data_r : ℕ
  pub status : ℕ
  pub sci : Sci

pub record Settings : Type 0 where
  pub loopback : Bool
  pub rx_polarity : Bool
  pub tx_idle : Bool
  pub tx_polarity : Bool
  pub rx_cdr_hold : Bool

-- The settings, `pause`, `sel`, `adr` and `dat_w` as stored, the pulses of `we` and `re`, and the
-- reset; and `dual`, which SerDesECP5 gives to `dual_sel` where the FSM does not.
pub record Input : Type 0 where
  pub dual : Bool
  pub reset : Bool
  pub settings : Settings
  pub pause : Bool
  pub sel : Bool
  pub we : Bool
  pub re : Bool
  pub adr : ℕ
  pub dat_w : ℕ

-- What the FSM asks of `sci`, and `done.status`.
pub record Request : Type 0 where
  pub dual_sel : Bool
  pub chan_sel : Bool
  pub re : Bool
  pub we : Bool
  pub adr : ℕ
  pub dat_w : ℕ
  pub done : Bool

abbrev no_request : Bool → Request
no_request dual = record {
  dual_sel = dual;
  chan_sel = false;
  re = false;
  we = false;
  adr = 0;
  dat_w = 0;
  done = false;
}

-- The bit `k` of a byte, assigned.
unfoldable pub set_bit : ℕ → Bool → ℕ → ℕ
set_bit k b x = x % 2 ^ k + (if b then 2 ^ k else 0) + x / 2 ^ (k + 1) * 2 ^ (k + 1)

-- `sci.dat_w` in the four states that write a register of the channel.
unfoldable pub merge_01 : Settings → ℕ → ℕ
unfolding set_bit
merge_01 c x = set_bit 1 c.tx_polarity (set_bit 0 c.rx_polarity x)

unfoldable pub merge_02 : Settings → ℕ → ℕ
unfolding set_bit
merge_02 c x = set_bit 6 c.tx_idle x

unfoldable pub merge_15 : Settings → ℕ → ℕ
merge_15 c x = if c.loopback then x / 2 ^ 4 * 2 ^ 4 + 1 else x

unfoldable pub merge_18 : Settings → ℕ → ℕ
unfolding set_bit
merge_18 c x = set_bit 6 c.rx_cdr_hold x

-- `~first & sci.done`
unfoldable pub ended : Reconfig → Bool
unfolding code sci_done
ended s = code s.fsm == s.last_fsm_state && sci_done s.sci.fsm

-- A state that reads into `data` resp. writes, and the state that follows.
fetch : Bool → ℕ → Fsm → Reconfig → Request × Reconfig
unfolding ended
fetch dual a f s =
    if ended s
    then (
      record (no_request dual) { chan_sel = true; adr = a },
      record s { fsm = f; data_r = s.sci.dat_r },
    )
    else (record (no_request dual) { chan_sel = true; adr = a; re = true }, s)

put : Bool → ℕ → ℕ → Fsm → Reconfig → Request × Reconfig
unfolding ended
put dual a v f s =
    if ended s
    then (record (no_request dual) { chan_sel = true; adr = a; dat_w = v }, record s { fsm = f })
    else (record (no_request dual) { chan_sel = true; adr = a; dat_w = v; we = true }, s)

-- `fsm.act`: the request, and the registers that the FSM assigns.
unfoldable pub act : Fsm → Reconfig → Input → Request × Reconfig
unfolding fetch put merge_01 merge_02 merge_15 merge_18 ended
act idle s n = (
  record (no_request n.dual) { done = true },
  record s {
    fsm = if n.pause then if n.re then read else if n.we then write else idle else read_ch_01;
  },
)
act read s n =
    let r = record (no_request n.dual) { dual_sel = n.sel; chan_sel = not n.sel; adr = n.adr } in
    if ended s
    then (r, record s { fsm = idle; status = s.sci.dat_r })
    else (record r { re = true }, s)
act write s n =
    let r = record (no_request n.dual) {
      dual_sel = n.sel;
      chan_sel = not n.sel;
      adr = n.adr;
      dat_w = n.dat_w;
    } in
    if ended s then (r, record s { fsm = idle }) else (record r { we = true }, s)
act read_ch_01 s n = fetch n.dual 0x01 write_ch_01 s
act write_ch_01 s n = put n.dual 0x01 (merge_01 n.settings s.data_r) read_ch_02 s
act read_ch_02 s n = fetch n.dual 0x02 write_ch_02 s
act write_ch_02 s n = put n.dual 0x02 (merge_02 n.settings s.data_r) read_ch_15 s
act read_ch_15 s n = fetch n.dual 0x15 write_ch_15 s
act write_ch_15 s n = put n.dual 0x15 (merge_15 n.settings s.data_r) read_ch_18 s
act read_ch_18 s n = fetch n.dual 0x18 write_ch_18 s
act write_ch_18 s n = put n.dual 0x18 (merge_18 n.settings s.data_r) idle s

abbrev pub power_on : Reconfig
power_on = record {
  fsm = idle;
  last_fsm_state = 0;
  data_r = 0;
  status = 0;
  sci = record { fsm = sci_idle; dat_r = 0 };
}

unfoldable pub out : Reconfig → Input → Request
unfolding act
out s n = (act s.fsm s n).0

unfoldable pub sci_out : Reconfig → Input → SciOutput
unfolding out sci_act
sci_out s n =
    let r = out s n in (sci_act s.sci.fsm s.sci (record { re = r.re; we = r.we; rdata = 0 })).0

-- One cycle, with `rdata` on the bus; the reset counts for `sci` too.
unfoldable pub next : Reconfig → Input → ℕ → Reconfig
unfolding act sci_act code
next s n rdata =
    let (r, t) = act s.fsm s n in
    if n.reset then power_on else record t {
      last_fsm_state = code s.fsm;
      sci = (sci_act s.sci.fsm s.sci (record { re = r.re; we = r.we; rdata = rdata })).1;
    }
