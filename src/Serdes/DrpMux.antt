-- ===== src/Serdes/DrpMux.antt =====
-- DRPMux of liteiclink/serdes/common.py.
pub mod Selection
use liteiclink.Base.{
  ℕ, zero, suc, ◌+◌, Bool, true, false, List, [], ◌∷◌, ◌++◌, Option, some, none, length, leb, ◌==◌,
  if◌then◌else◌,
}

-- The signals of an interface from its master, and those to it.
pub record Master : Type 0 where
  pub clk : Bool
  pub en : Bool
  pub we : Bool
  pub addr : ℕ
  pub di : ℕ

pub record Slave : Type 0 where
  pub rdy : Bool
  pub do_r : ℕ

abbrev pub no_master : Master
no_master = record { clk = false; en = false; we = false; addr = 0; di = 0 }

abbrev pub no_slave : Slave
no_slave = record { rdy = false; do_r = 0 }

-- `Case(self.sel, cases)`, whose case `i` connects the interface `i`: what the port of the primitive
-- is driven by.
unfoldable pub mux_port : ℕ → List Master → Master
mux_port sel [] = no_master
mux_port zero (m ∷ ms) = m
mux_port (suc sel) (m ∷ ms) = mux_port sel ms

-- What each interface gets back, for the answer of the port.
unfoldable pub mux_back : ℕ → ℕ → Slave → List Master → List Slave
mux_back i sel answer [] = []
mux_back i sel answer (m ∷ ms) =
    (if sel == i then answer else no_slave) ∷ mux_back (i + 1) sel answer ms

-- `add_interface`, and `do_finalize` with its assertion.
unfoldable pub add_interface : Master → List Master → List Master
add_interface m ms = ms ++ (m ∷ [])

unfoldable pub finalize : List Master → Option (List Master)
finalize ms = if leb (length ms) 16 then some ms else none
