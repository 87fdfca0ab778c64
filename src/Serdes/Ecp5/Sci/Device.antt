-- ===== src/Serdes/Ecp5/Sci/Device.antt =====
-- The transceiver behind the registers: a part of the FPGA, so an interface with what is relied on.
use liteiclink.Base.{ℕ, Bool, ◌≡◌, ◌≢◌, if◌then◌else◌}
use liteiclink.Serdes.Ecp5.Sci.{Reconfig, Input, next, out, sci_out}

-- The registers are selected by `dual_sel`, `chan_sel` and an address. A register that was written
-- reads as written, and a write leaves the other addresses of the selected part alone.
pub record SciDevice : Type 1 where
  pub State : Type 0
  pub read : State → Bool → Bool → ℕ → ℕ
  pub write : State → Bool → Bool → ℕ → ℕ → State
  pub read-write : (d : State) (p q : Bool) (a v : ℕ) → read (write d p q a v) p q a ≡ v
  pub read-write_ne :
      (d : State) (p q : Bool) (a b v : ℕ) → a ≢ b → read (write d p q a v) p q b ≡ read d p q b

module _ (D : SciDevice) where
  pub record System : Type 0 where
    pub core : Reconfig
    pub device : D.State

  -- One cycle of the circuit and of the transceiver, which writes while `sci_wrn` is low.
  unfoldable pub system_next : System → Input → System
  unfolding next out sci_out
  system_next s n =
      let r = out s.core n in
      record {
        core = next s.core n (D.read s.device r.dual_sel r.chan_sel r.adr);
        device =
            if (sci_out s.core n).sci_wrn
            then s.device
            else D.write s.device r.dual_sel r.chan_sel r.adr r.dat_w;
      }
