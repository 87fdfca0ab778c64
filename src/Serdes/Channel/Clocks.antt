-- ===== src/Serdes/Channel/Clocks.antt =====
-- How a channel of liteiclink/serdes gets the clocks of its domains tx and rx. The floating point
-- numbers of Python are a parameter.
use liteiclink.Base.{ℕ, ◌-◌, Bool, Option, none, some, if◌then◌else◌}

-- `x / y`, `x == y`, `int(x)` of a number that is not negative, and an integer as a float.
pub record Floats : Type 1 where
  pub Float : Type 0
  pub over : Float → Float → Float
  pub same : Float → Float → Bool
  pub int : Float → ℕ
  pub float : ℕ → Float

-- The buffer of `txoutclk`, a BUFR behind it with its divider, an S7PLL between two frequencies, a
-- BUFG_GT with its input DIV, or the clock that was given.
pub data Source (f : Floats) : Type 0 where
  bufg : Source f
  bufr : ℕ → Source f
  pll : Floats.Float f → Floats.Float f → Source f
  bufg_gt : ℕ → Source f
  shared : Source f

module _ (f : Floats) where
  -- `tx_buffer_enable`, whether `tx_clk` is given, `pll.config["clkin"]` and `self.tx_clk_freq`.
  pub record TxConfig : Type 0 where
    pub buffer : Bool
    pub given : Bool
    pub clkin : f.Float
    pub freq : f.Float

  unfoldable pub ratio : TxConfig → f.Float
  ratio c = if c.buffer then f.float 1 else f.over c.clkin c.freq

  -- A clock that is given asks for the buffer; otherwise the assertion fails.
  unfoldable pub given_clock : Bool → Option (Source f)
  given_clock buffer = if buffer then some shared else none

  -- The transceivers of the 7-series.
  unfoldable pub tx_clock : TxConfig → Option (Source f)
  unfolding ratio given_clock
  tx_clock c =
      let d = ratio c in
      if c.given
      then given_clock c.buffer
      else if f.same d (f.float 1)
      then some bufg
      else if f.same d (f.float (f.int d))
      then some (bufr (f.int d))
      else some (pll c.clkin c.freq)

  -- The Ultrascale transceivers, where a ratio that is no integer fails an assertion.
  unfoldable pub us_tx_clock : TxConfig → Option (Source f)
  unfolding ratio given_clock
  us_tx_clock c =
      let d = ratio c in
      if c.given
      then given_clock c.buffer
      else if f.same d (f.float (f.int d))
      then some (bufg_gt (f.int d - 1))
      else none

  -- The receivers of all of them take the buffer of `rxoutclk`, or the clock that is given.
  unfoldable pub rx_clock : (buffer given : Bool) → Option (Source f)
  unfolding given_clock
  rx_clock buffer given = if given then given_clock buffer else some bufg
