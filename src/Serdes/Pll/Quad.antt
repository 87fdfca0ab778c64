-- ===== src/Serdes/Pll/Quad.antt =====
-- `compute_config` of the PLLs with dividers N, M and D whose oscillator has two bands: GTXQuadPLL
-- and GTHQuadPLL of the 7-series, and GTHQuadPLLBase of the Ultrascale devices.
use liteiclink.Base.{
  ℕ, Bool, true, Option, some, none, List, [], ◌∷◌, ◌≡◌, refl, arith, ap, ◌&&◌, if◌then◌else◌, sym,
  ◌∙◌,
}
use liteiclink.Serdes.Pll.{
  Arithmetic, first_of, first_of-some, first_of-hit, if-some, if-hit, IsAnswer, search-IsAnswer,
  on_some, on_some-some,
}
use mathlib.Core.List.{Memᴰ}
use mathlib.Core.Option.{some-injective}
use mathlib.Core.Path.{subst}

-- `vco_band` of the 7-series, and `qpll` of the Ultrascale devices.
pub data VcoBand : Type 0 where
  lower upper : VcoBand

pub data Qpll : Type 0 where
  qpll0 qpll1 : Qpll

abbrev pub ns_7series : List ℕ
ns_7series = 16 ∷ 20 ∷ 32 ∷ 40 ∷ 64 ∷ 66 ∷ 80 ∷ 100 ∷ []

abbrev pub ns_ultrascale : List ℕ
ns_ultrascale =
    16 ∷ 20 ∷ 32 ∷ 40 ∷ 60 ∷ 64 ∷ 66 ∷ 75 ∷ 80 ∷ 84 ∷ 90 ∷ 96 ∷ 100 ∷ 112 ∷ 120 ∷ 125 ∷ 150 ∷ 160
    ∷ []

abbrev pub ms : List ℕ
ms = 1 ∷ 2 ∷ 3 ∷ 4 ∷ []

abbrev pub ds : List ℕ
ds = 1 ∷ 2 ∷ 4 ∷ 8 ∷ 16 ∷ []

module _ (F : Arithmetic) where
  abbrev within : ℕ → ℕ → F.Freq → Bool
  within low high f = F.at_most (F.mhz low) f && F.at_most f (F.mhz high)

  unfoldable pub vco_band : F.Freq → Option VcoBand
  vco_band f =
      if within 5930 8000 f then some lower else (if within 9800 12500 f then some upper else none)

  unfoldable pub qpll : F.Freq → Option Qpll
  qpll f =
      if within 8000 13000 f then some qpll1 else (if within 9800 16375 f then some qpll0 else none)

  module _ (Band : Type 0) where
    pub record Config : Type 0 where
      pub n : ℕ
      pub m : ℕ
      pub d : ℕ
      pub vco_freq : F.Freq
      pub band : Band
      pub clkin : F.Freq
      pub clkout : F.Freq
      pub linerate : F.Freq

  -- The bands of the data sheets, in MHz. Where two overlap, the first is taken.
  abbrev Between : ℕ → ℕ → F.Freq → Type 0
  Between low high f = (F.at_most (F.mhz low) f ≡ true) × (F.at_most f (F.mhz high) ≡ true)

  abbrev pub IsVcoBand : F.Freq → VcoBand → Type 0
  IsVcoBand f lower = Between 5930 8000 f
  IsVcoBand f upper = Between 9800 12500 f × ¬ Between 5930 8000 f

  abbrev pub IsQpll : F.Freq → Qpll → Type 0
  IsQpll f qpll1 = Between 8000 13000 f
  IsQpll f qpll0 = Between 9800 16375 f × ¬ Between 8000 13000 f

  pub vco_band-IsVcoBand :
      (f : F.Freq) (b : VcoBand)
      → (vco_band f ≡ some b → IsVcoBand f b) × (IsVcoBand f b → vco_band f ≡ some b)
  unfolding vco_band
  vco_band-IsVcoBand f lower = (λ h. ground arith, λ h. ground arith)
  vco_band-IsVcoBand f upper = (λ h. ground arith, λ h. ground arith)

  pub qpll-IsQpll :
      (f : F.Freq) (b : Qpll) → (qpll f ≡ some b → IsQpll f b) × (IsQpll f b → qpll f ≡ some b)
  unfolding qpll
  qpll-IsQpll f qpll0 = (λ h. ground arith, λ h. ground arith)
  qpll-IsQpll f qpll1 = (λ h. ground arith, λ h. ground arith)

  module _ {Band : Type 0} (ns : List ℕ) (band_of : F.Freq → Option Band)
      (refclk_freq linerate : F.Freq) where
    abbrev pub vco : ℕ → ℕ → F.Freq
    vco n m = F.over (F.times refclk_freq n) m

    abbrev pub gives : F.Freq → ℕ → Bool
    gives f d = F.same (F.over (F.times (F.over f 2) 2) d) linerate

    abbrev pub config : ℕ → ℕ → ℕ → Band → Config Band
    config n m d b = record {
      n = n;
      m = m;
      d = d;
      vco_freq = vco n m;
      band = b;
      clkin = refclk_freq;
      clkout = F.over (vco n m) 2;
      linerate = linerate;
    }

    -- The loop over `d`, for a frequency in a band of the oscillator.
    abbrev pub divide : ℕ → ℕ → Band → Option (Config Band)
    divide n m b = first_of ds (λ d. if gives (vco n m) d then some (config n m d b) else none)

    -- The loops; `none` stands for the ValueError.
    unfoldable pub compute_config : Option (Config Band)
    compute_config = first_of ns (λ n. first_of ms (λ m. on_some (band_of (vco n m)) (divide n m)))

  -- What a configuration has to be, by itself: dividers from the lists, an oscillator at
  -- `refclk_freq * n / m` in the band that it names, and twice half its frequency over `d` the
  -- line rate.
  module _ {Band : Type 0} (ns : List ℕ) (IsBand : F.Freq → Band → Type 0)
      (refclk_freq linerate : F.Freq) where
    pub record IsConfig (c : Config Band) : Type 0 where
      pub n_choice : Memᴰ c.n ns
      pub m_choice : Memᴰ c.m ms
      pub d_choice : Memᴰ c.d ds
      pub from_clkin : c.clkin ≡ refclk_freq
      pub asked : c.linerate ≡ linerate
      pub from_vco : c.clkout ≡ F.over c.vco_freq 2
      pub from_dividers : c.vco_freq ≡ F.over (F.times refclk_freq c.n) c.m
      pub in_band : IsBand c.vco_freq c.band
      pub rate : F.same (F.over (F.times (F.over c.vco_freq 2) 2) c.d) linerate ≡ true

  module _ {Band : Type 0} (ns : List ℕ) (band_of : F.Freq → Option Band)
      (IsBand : F.Freq → Band → Type 0)
      (bands : (f : F.Freq) (b : Band)
        → (band_of f ≡ some b → IsBand f b) × (IsBand f b → band_of f ≡ some b))
      (refclk_freq linerate : F.Freq) where
    abbrev answer : Option (Config Band)
    answer = compute_config ns band_of refclk_freq linerate

    abbrev IsAsked : Config Band → Type 0
    IsAsked = IsConfig ns IsBand refclk_freq linerate

    -- A configuration that the search returns has dividers from the lists, an oscillator in the
    -- band that it names, and the line rate that was asked for.
    pub quad_sound : (c : Config Band) → answer ≡ some c → IsAsked c
    unfolding compute_config
    quad_sound c h =
        let (n, i, h) = first_of-some ns _ c h in
        let (m, j, h) = first_of-some ms _ c h in
        let (b, in_band, h) = on_some-some _ _ c h in
        let (d, l, h) = first_of-some ds _ c h in
        let (r, h) = if-some _ _ c h in
        subst IsAsked (some-injective _ _ h) (record {
          n_choice = i;
          m_choice = j;
          d_choice = l;
          from_clkin = refl;
          asked = refl;
          from_vco = refl;
          from_dividers = refl;
          in_band = (bands _ b).0 in_band;
          rate = r;
        })

    -- If any configuration fits the lists, a band and the line rate, the search returns one.
    pub quad_complete : (c : Config Band) → IsAsked c → (x : Config Band) × (answer ≡ some x)
    unfolding compute_config
    quad_complete c p =
        let v = p.from_dividers in
        let (x, h) =
          first_of-hit ds _ c.d (config ns band_of refclk_freq linerate c.n c.m c.d c.band)
            p.d_choice
            (if-hit _ _
              (ap (λ f. F.same (F.over (F.times (F.over f 2) 2) c.d) linerate) (sym v) ∙ p.rate)) in
        let (x, h) = first_of-hit ms _ c.m x p.m_choice (
          ap (λ o. on_some o (divide ns band_of refclk_freq linerate c.n c.m))
            (ap band_of (sym v) ∙ (bands _ _).1 p.in_band)
          ∙ h) in
        first_of-hit ns _ c.n x p.n_choice h

    pub config-IsAnswer : IsAnswer IsAsked answer
    config-IsAnswer = search-IsAnswer IsAsked answer quad_sound quad_complete

  -- The devices.
  abbrev pub gtx_quad_config : F.Freq → F.Freq → Option (Config VcoBand)
  gtx_quad_config = compute_config ns_7series vco_band

  abbrev pub gth_quad_config : F.Freq → F.Freq → Option (Config VcoBand)
  gth_quad_config = compute_config ns_7series vco_band

  abbrev pub gth3_quad_config : F.Freq → F.Freq → Option (Config Qpll)
  gth3_quad_config = compute_config ns_ultrascale qpll

  abbrev pub gth4_quad_config : F.Freq → F.Freq → Option (Config Qpll)
  gth4_quad_config = compute_config ns_ultrascale qpll

  -- The search of a quad PLL, of the 7-series and of the Ultrascale devices, returns a configuration
  -- that has dividers from the lists, an oscillator in the band that it names and the line rate that
  -- was asked for, or fails where there is none.
  pub quad_answers :
      (refclk_freq linerate : F.Freq)
      → IsAnswer
          (IsConfig ns_7series IsVcoBand refclk_freq linerate)
          (gtx_quad_config refclk_freq linerate)
        × IsAnswer
            (IsConfig ns_7series IsVcoBand refclk_freq linerate)
            (gth_quad_config refclk_freq linerate)
        × IsAnswer
            (IsConfig ns_ultrascale IsQpll refclk_freq linerate)
            (gth3_quad_config refclk_freq linerate)
        × IsAnswer
            (IsConfig ns_ultrascale IsQpll refclk_freq linerate)
            (gth4_quad_config refclk_freq linerate)
  quad_answers r l =
      let series = config-IsAnswer ns_7series vco_band IsVcoBand vco_band-IsVcoBand r l in
      let ultrascale = config-IsAnswer ns_ultrascale qpll IsQpll qpll-IsQpll r l in
      (series, series, ultrascale, ultrascale)
