-- ===== src/Serdes/Pll/Gty.antt =====
-- `compute_config` of GTYQuadPLL in liteiclink/serdes/gty_ultrascale.py, whose divider has a fraction.
use liteiclink.Base.{
  ℕ, Bool, true, false, Option, some, none, ◌≡◌, refl, arith, ap, ◌&&◌, if◌then◌else◌, sym, ◌∙◌,
  Bool-cases, inl, inr,
}
use liteiclink.Serdes.Pll.{
  Arithmetic, first_of, first_of-some, first_of-hit, if-some, if-hit, on_some, on_some-some,
}
use liteiclink.Serdes.Pll.Quad.{Qpll, qpll, IsQpll, qpll-IsQpll, ms, ds}
use mathlib.Core.List.{Memᴰ}
use mathlib.Core.Option.{some-injective, some-ne-none}
use mathlib.Core.Path.{subst}

-- More of Python's numbers: `x / y`, `x * y`, an integer `n`, `x + y`, `x - y` and `math.floor`.
pub record Floats : Type 1 where
  pub base : Arithmetic
  pub per : base.Freq → base.Freq → base.Freq
  pub mul : base.Freq → base.Freq → base.Freq
  pub whole : ℕ → base.Freq
  pub plus : base.Freq → base.Freq → base.Freq
  pub minus : base.Freq → base.Freq → base.Freq
  pub floor : base.Freq → ℕ

module _ (G : Floats) where
  abbrev pub Freq : Type 0
  Freq = G.base.Freq

  pub record Config : Type 0 where
    pub n : ℕ
    pub m : ℕ
    pub d : ℕ
    pub f : Freq
    pub vco_freq : Freq
    pub band : Qpll
    pub clkin : Freq
    pub clkout_rate : ℕ
    pub clkout : Freq
    pub linerate : Freq

  -- `refused` is the assertion, `no_config` the ValueError.
  pub data Answer : Type 0 where
    found : Config → Answer
    no_config refused : Answer

  module _ (refclk_freq linerate : Freq) where
    -- Full or half rate.
    unfoldable pub rate : ℕ
    rate = if G.base.at_most linerate (G.base.mhz 16375) then 2 else 1

    unfoldable pub vco : ℕ → Freq
    unfolding rate
    vco d = G.base.times (G.base.over (G.base.times linerate d) 2) rate

    unfoldable pub n_f : ℕ → ℕ → Freq
    unfolding vco
    n_f d m = G.base.times (G.per (vco d) refclk_freq) m

    unfoldable pub in_range : Freq → Bool
    in_range x = G.base.at_most (G.whole 16) x && G.base.at_most x (G.whole 160)

    -- The configuration that is returned for `d`, `m` and a QPLL.
    unfoldable pub config : ℕ → ℕ → Qpll → Config
    unfolding n_f rate
    config d m q =
        let n = G.floor (n_f d m) in
        let f = G.minus (n_f d m) (G.whole n) in
        let vco_freq_calc = G.base.over (G.mul refclk_freq (G.plus (G.whole n) f)) m in
        let clkout_calc = G.base.over vco_freq_calc rate in
        record {
          n = n;
          m = m;
          d = d;
          f = f;
          vco_freq = vco_freq_calc;
          band = q;
          clkin = refclk_freq;
          clkout_rate = rate;
          clkout = clkout_calc;
          linerate = G.base.over (G.base.times clkout_calc 2) d;
        }

    -- The loops.
    unfoldable pub search : Option Config
    unfolding vco n_f in_range config
    search = first_of ds (λ d.
        on_some (qpll G.base (vco d))
          (λ q. first_of ms (λ m. if in_range (n_f d m) then some (config d m q) else none)))

    abbrev answer : Option Config → Answer
    answer (some c) = found c
    answer none = no_config

    unfoldable pub compute_config : Answer
    unfolding search
    compute_config = if G.base.at_most linerate (G.base.mhz 32750) then answer search else refused

    -- 2 up to 16.375 Gbps, 1 above.
    abbrev asked_rate : ℕ
    asked_rate = if G.base.at_most linerate (G.base.mhz 16375) then 2 else 1

    -- The oscillator that the line rate asks for under `d`, and its divider under `m`.
    abbrev asked_vco : ℕ → Freq
    asked_vco d = G.base.times (G.base.over (G.base.times linerate d) 2) asked_rate

    abbrev asked_n : ℕ → ℕ → Freq
    asked_n d m = G.base.times (G.per (asked_vco d) refclk_freq) m

    -- What a configuration has to be: its dividers are from the lists, the oscillator that the line
    -- rate asks for is in the band of the QPLL, its divider is from 16 to 160 and taken apart into an
    -- integer and a fraction, and the frequencies are those that these dividers give.
    pub record IsConfig (c : Config) : Type 0 where
      pub d_choice : Memᴰ c.d ds
      pub m_choice : Memᴰ c.m ms
      pub in_band : IsQpll G.base (asked_vco c.d) c.band
      pub at_least : G.base.at_most (G.whole 16) (asked_n c.d c.m) ≡ true
      pub at_most : G.base.at_most (asked_n c.d c.m) (G.whole 160) ≡ true
      pub whole_part : c.n ≡ G.floor (asked_n c.d c.m)
      pub fraction : c.f ≡ G.minus (asked_n c.d c.m) (G.whole c.n)
      pub from_dividers :
          c.vco_freq ≡ G.base.over (G.mul refclk_freq (G.plus (G.whole c.n) c.f)) c.m
      pub from_clkin : c.clkin ≡ refclk_freq
      pub at_rate : c.clkout_rate ≡ asked_rate
      pub from_vco : c.clkout ≡ G.base.over c.vco_freq asked_rate
      pub from_clkout : c.linerate ≡ G.base.over (G.base.times c.clkout 2) c.d

    in_range-bounds :
        (x : Freq)
        → (in_range x ≡ true
            → (G.base.at_most (G.whole 16) x ≡ true) × (G.base.at_most x (G.whole 160) ≡ true))
          × (G.base.at_most (G.whole 16) x ≡ true
              → G.base.at_most x (G.whole 160) ≡ true
              → in_range x ≡ true)
    unfolding in_range
    in_range-bounds x = (λ h. ground arith, λ h g. ground arith)

    search-IsConfig : (c : Config) → search ≡ some c → IsConfig c
    unfolding search config vco n_f rate
    search-IsConfig c h =
        let (d, i, h) = first_of-some ds _ c h in
        let (q, b, h) = on_some-some _ _ c h in
        let (m, j, h) = first_of-some ms _ c h in
        let (r, h) = if-some _ _ c h in
        subst IsConfig (some-injective _ _ h) (record {
          d_choice = i;
          m_choice = j;
          in_band = (qpll-IsQpll G.base (vco d) q).0 b;
          at_least = ((in_range-bounds (n_f d m)).0 r).0;
          at_most = ((in_range-bounds (n_f d m)).0 r).1;
          whole_part = refl;
          fraction = refl;
          from_dividers = refl;
          from_clkin = refl;
          at_rate = refl;
          from_vco = refl;
          from_clkout = refl;
        })

    search-finds : (c : Config) → IsConfig c → (x : Config) × (search ≡ some x)
    unfolding search vco n_f rate
    search-finds c p =
        let fits = (in_range-bounds (n_f c.d c.m)).1 p.at_least p.at_most in
        let (x, h) = first_of-hit ms _ c.m (config c.d c.m c.band) p.m_choice (if-hit _ _ fits) in
        first_of-hit ds _ c.d x p.d_choice (
          ap
            (λ o. on_some o (λ q.
              first_of ms (λ m. if in_range (n_f c.d m) then some (config c.d m q) else none)))
            ((qpll-IsQpll G.base (vco c.d) c.band).1 p.in_band)
          ∙ h)

    -- The line rates that are taken.
    abbrev pub is_taken : Bool
    is_taken = G.base.at_most linerate (G.base.mhz 32750)

    abbrev pub IsCorrect : Answer → Type 0
    IsCorrect (found c) = (is_taken ≡ true) × IsConfig c
    IsCorrect no_config = (is_taken ≡ true) × ((c : Config) → ¬ IsConfig c)
    IsCorrect refused = is_taken ≡ false

    answer-IsCorrect : (o : Option Config) → search ≡ o → is_taken ≡ true → IsCorrect (answer o)
    answer-IsCorrect (some c) h t = (t, search-IsConfig c h)
    answer-IsCorrect none h t =
        (t, λ c p. let (x, e) = search-finds c p in some-ne-none x (sym e ∙ h))

    -- A line rate above 32.75 Gbps is refused. Otherwise a configuration is returned whose dividers
    -- are from the lists, whose QPLL has the oscillator that the line rate asks for in its band, and
    -- whose divider with its fraction is what that asks for and is from 16 to 160, or the error, where
    -- there is none.
    pub gty_quad_answers : IsCorrect compute_config
    unfolding compute_config
    gty_quad_answers = elim (Bool-cases is_taken) [
      | inl t ↦
          subst IsCorrect (ap (λ b. if b then answer search else refused) (sym t))
            (answer-IsCorrect search refl t)
      | inr t ↦ subst IsCorrect (ap (λ b. if b then answer search else refused) (sym t)) t
    ]
