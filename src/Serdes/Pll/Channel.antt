-- ===== src/Serdes/Pll/Channel.antt =====
-- `compute_config` of the PLLs with dividers N1, N2, M and D: GTPQuadPLL, GTXChannelPLL and
-- GTHChannelPLL of the 7-series, and GTHChannelPLL and GTYChannelPLL of the Ultrascale devices.
use liteiclink.Base.{
  ℕ, ◌*◌, Bool, true, Option, some, none, List, [], ◌∷◌, ◌≡◌, refl, ap, ◌&&◌, if◌then◌else◌, sym,
  ◌∙◌,
}
use liteiclink.Serdes.Pll.{
  Arithmetic, first_of, first_of-some, first_of-hit, if-some, if-hit, IsAnswer, search-IsAnswer,
}
use mathlib.Core.Option.{some-injective}
use mathlib.Core.Path.{subst}
use mathlib.Core.List.{Memᴰ}

abbrev pub n1s : List ℕ
n1s = 4 ∷ 5 ∷ []

abbrev pub n2s : List ℕ
n2s = 1 ∷ 2 ∷ 3 ∷ 4 ∷ 5 ∷ []

abbrev pub ms : List ℕ
ms = 1 ∷ 2 ∷ []

abbrev pub ds_16 : List ℕ
ds_16 = 1 ∷ 2 ∷ 4 ∷ 8 ∷ 16 ∷ []

abbrev pub ds_8 : List ℕ
ds_8 = 1 ∷ 2 ∷ 4 ∷ 8 ∷ []

module _ (F : Arithmetic) where
  pub record Config : Type 0 where
    pub n1 : ℕ
    pub n2 : ℕ
    pub m : ℕ
    pub d : ℕ
    pub vco_freq : F.Freq
    pub clkin : F.Freq
    pub linerate : F.Freq

  module _ (ds : List ℕ) (low high : ℕ) (refclk_freq linerate : F.Freq) where
    abbrev pub vco : ℕ → ℕ → ℕ → F.Freq
    vco n1 n2 m = F.over (F.times refclk_freq (n1 * n2)) m

    abbrev pub in_band : F.Freq → Bool
    in_band f = F.at_most (F.mhz low) f && F.at_most f (F.mhz high)

    abbrev pub gives : F.Freq → ℕ → Bool
    gives f d = F.same (F.over (F.times f 2) d) linerate

    abbrev pub config : ℕ → ℕ → ℕ → ℕ → Config
    config n1 n2 m d = record {
      n1 = n1;
      n2 = n2;
      m = m;
      d = d;
      vco_freq = vco n1 n2 m;
      clkin = refclk_freq;
      linerate = linerate;
    }

    -- The loop over `d`, for a frequency in the band of the oscillator.
    abbrev pub divide : ℕ → ℕ → ℕ → Option Config
    divide n1 n2 m =
        first_of ds (λ d. if gives (vco n1 n2 m) d then some (config n1 n2 m d) else none)

    -- The loops, for dividers `ds` and an oscillator from `low` to `high` MHz; `none` stands for the
    -- ValueError.
    unfoldable pub compute_config : Option Config
    compute_config = first_of n1s (λ n1.
        first_of n2s
          (λ n2. first_of ms (λ m. if in_band (vco n1 n2 m) then divide n1 n2 m else none)))

    -- What a configuration has to be, by itself.
    pub record IsConfig (c : Config) : Type 0 where
      pub n1_choice : Memᴰ c.n1 n1s
      pub n2_choice : Memᴰ c.n2 n2s
      pub m_choice : Memᴰ c.m ms
      pub d_choice : Memᴰ c.d ds
      pub clkin : c.clkin ≡ refclk_freq
      pub asked : c.linerate ≡ linerate
      pub vco_freq : c.vco_freq ≡ F.over (F.times refclk_freq (c.n1 * c.n2)) c.m
      pub band : in_band c.vco_freq ≡ true
      pub rate : gives c.vco_freq c.d ≡ true

    -- A configuration that the search returns has dividers from the lists, an oscillator in the
    -- band, and the line rate that was asked for.
    pub channel_sound : (c : Config) → compute_config ≡ some c → IsConfig c
    unfolding compute_config
    channel_sound c h =
        let (n1, i, h) = first_of-some n1s _ c h in
        let (n2, j, h) = first_of-some n2s _ c h in
        let (m, k, h) = first_of-some ms _ c h in
        let (b, h) = if-some _ _ c h in
        let (d, l, h) = first_of-some ds _ c h in
        let (r, h) = if-some _ _ c h in
        subst IsConfig (some-injective _ _ h) (record {
          n1_choice = i;
          n2_choice = j;
          m_choice = k;
          d_choice = l;
          clkin = refl;
          asked = refl;
          vco_freq = refl;
          band = b;
          rate = r;
        })

    -- If any configuration fits the lists, the band and the line rate, the search returns one.
    pub channel_complete : (c : Config) → IsConfig c → (x : Config) × (compute_config ≡ some x)
    unfolding compute_config
    channel_complete c p =
        let v = p.vco_freq in
        let (x, h) =
          first_of-hit ds _ c.d (config c.n1 c.n2 c.m c.d) p.d_choice
            (if-hit _ _ (ap (λ f. gives f c.d) (sym v) ∙ p.rate)) in
        let (x, h) =
          first_of-hit ms _ c.m x p.m_choice (if-hit _ _ (ap in_band (sym v) ∙ p.band) ∙ h) in
        let (x, h) = first_of-hit n2s _ c.n2 x p.n2_choice h in
        first_of-hit n1s _ c.n1 x p.n1_choice h

    -- The search of a channel PLL returns a configuration that has dividers from the lists, an
    -- oscillator in the band and the line rate that was asked for, or fails where there is none.
    pub channel_answers : IsAnswer IsConfig compute_config
    channel_answers = search-IsAnswer IsConfig compute_config channel_sound channel_complete

  -- The devices.
  abbrev pub gtp_config : F.Freq → F.Freq → Option Config
  gtp_config = compute_config ds_16 1600 3300

  abbrev pub gtx_config : F.Freq → F.Freq → Option Config
  gtx_config = compute_config ds_16 1600 3300

  abbrev pub gth_config : F.Freq → F.Freq → Option Config
  gth_config = compute_config ds_16 2000 6250

  abbrev pub gth3_config : F.Freq → F.Freq → Option Config
  gth3_config = compute_config ds_16 2000 6250

  abbrev pub gth4_config : F.Freq → F.Freq → Option Config
  gth4_config = compute_config ds_16 2000 6250

  abbrev pub gty_config : F.Freq → F.Freq → Option Config
  gty_config = compute_config ds_8 2000 6250
