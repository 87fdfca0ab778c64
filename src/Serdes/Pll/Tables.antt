-- ===== src/Serdes/Pll/Tables.antt =====
-- The parameters of the primitives that are looked up under the dividers of a configuration, in
-- liteiclink/serdes/gtp_7series.py, gtx_7series.py and serdes_ecp5.py. A missing key is `none`.
use liteiclink.Base.{
  ℕ, Bool, true, false, Option, some, none, List, [], ◌∷◌, ◌≡◌, inr, refl, ◌==◌, if◌then◌else◌, All,
  ap, ◌∙◌, ◌++◌,
}
use liteiclink.Serdes.Pll.{Arithmetic, All-Memᴰ, on_some}
use liteiclink.Serdes.Pll.Channel as Channel
use liteiclink.Serdes.Pll.Channel.{channel_sound, ds_16, gtp_config, gtx_config}
use liteiclink.Serdes.Pll.Quad as Quad
use liteiclink.Serdes.Pll.Quad.{
  VcoBand, lower, upper, quad_sound, vco_band, ns_7series, gtx_quad_config, IsVcoBand,
  vco_band-IsVcoBand,
}
use liteiclink.Serdes.Pll.Ecp5 as Ecp5
use liteiclink.Serdes.Pll.Ecp5.{usual, multipliers, from_highest}
use liteiclink.Serdes.Pll.Ecp5.Choice.{ecp5_sound}

unfoldable pub lookup : List (ℕ × ℕ) → ℕ → Option ℕ
lookup [] k = none
lookup ((i, v) ∷ t) k = if k == i then some v else lookup t k

abbrev pub HasKey : List (ℕ × ℕ) → ℕ → Type 0
HasKey t k = (v : ℕ) × (lookup t k ≡ some v)

abbrev pub fbdiv_ratios : List (ℕ × ℕ)
fbdiv_ratios = (16, 1) ∷ (20, 1) ∷ (32, 1) ∷ (40, 1) ∷ (64, 1) ∷ (66, 0) ∷ (80, 1) ∷ (100, 1) ∷ []

abbrev pub fbdivs : List (ℕ × ℕ)
fbdivs =
    (16, 0b0000100000)
    ∷ (20, 0b0000110000)
    ∷ (32, 0b0001100000)
    ∷ (40, 0b0010000000)
    ∷ (64, 0b0011100000)
    ∷ (66, 0b0101000000)
    ∷ (80, 0b0100100000)
    ∷ (100, 0b0101110000)
    ∷ []

abbrev pub gtx_rxcdr_cfgs : List (ℕ × ℕ)
gtx_rxcdr_cfgs =
    (1, 0x03000023ff10400020)
    ∷ (2, 0x03000023ff10200020)
    ∷ (4, 0x03000023ff10100020)
    ∷ (8, 0x03000023ff10080020)
    ∷ (16, 0x03000023ff10080020)
    ∷ []

abbrev pub gtp_rxcdr_cfgs : List (ℕ × ℕ)
gtp_rxcdr_cfgs =
    (1, 0x0000107FE406001041010)
    ∷ (2, 0x0000107FE206001041010)
    ∷ (4, 0x0000107FE106001041010)
    ∷ (8, 0x0000107FE086001041010)
    ∷ (16, 0x0000107FE086001041010)
    ∷ []

-- `p_D_REFCK_MODE`, and `p_D_TX_VCO_CK_DIV` and `p_CHX_RX_DCO_CK_DIV`, which are the same table.
abbrev pub refck_modes : List (ℕ × ℕ)
refck_modes = (25, 0b100) ∷ (20, 0b000) ∷ (16, 0b010) ∷ (10, 0b001) ∷ (8, 0b011) ∷ []

abbrev pub ck_divs : List (ℕ × ℕ)
ck_divs = (32, 0b111) ∷ (16, 0b110) ∷ (8, 0b101) ∷ (4, 0b100) ∷ (2, 0b010) ∷ (1, 0b000) ∷ []

-- The parameters of GTXE2_COMMON that depend on the configuration.
pub record QuadParams : Type 0 where
  pub qpll_cfg : ℕ
  pub qpll_fbdiv : ℕ
  pub qpll_fbdiv_ratio : ℕ
  pub qpll_refclk_div : ℕ

unfoldable pub is_upper : VcoBand → Bool
is_upper lower = false
is_upper upper = true

-- Every divider of the lists is a key of the tables.
fbdivs-All : All (HasKey fbdivs) ns_7series
unfolding lookup
fbdivs-All = (
  (_, refl),
  ((_, refl), ((_, refl), ((_, refl), ((_, refl), ((_, refl), ((_, refl), ((_, refl), _))))))),
)

fbdiv_ratios-All : All (HasKey fbdiv_ratios) ns_7series
unfolding lookup
fbdiv_ratios-All = (
  (_, refl),
  ((_, refl), ((_, refl), ((_, refl), ((_, refl), ((_, refl), ((_, refl), ((_, refl), _))))))),
)

gtx_rxcdr_cfgs-All : All (HasKey gtx_rxcdr_cfgs) ds_16
unfolding lookup
gtx_rxcdr_cfgs-All = ((_, refl), ((_, refl), ((_, refl), ((_, refl), ((_, refl), _)))))

gtp_rxcdr_cfgs-All : All (HasKey gtp_rxcdr_cfgs) ds_16
unfolding lookup
gtp_rxcdr_cfgs-All = ((_, refl), ((_, refl), ((_, refl), ((_, refl), ((_, refl), _)))))

ck_divs-All : All (HasKey ck_divs) from_highest
unfolding lookup
ck_divs-All = ((_, refl), ((_, refl), ((_, refl), ((_, refl), ((_, refl), ((_, refl), _))))))

refck-if : (t : Bool) → All (HasKey refck_modes) (if t then usual ++ (25 ∷ []) else usual)
unfolding lookup
refck-if true = ((_, refl), ((_, refl), ((_, refl), ((_, refl), ((_, refl), _)))))
refck-if false = ((_, refl), ((_, refl), ((_, refl), ((_, refl), _))))

module _ (F : Arithmetic) where
  unfoldable pub quad_at : Quad.Config F VcoBand → ℕ → ℕ → QuadParams
  unfolding is_upper
  quad_at c fbdiv ratio = record {
    qpll_cfg = if is_upper c.band then 0x0680181 else 0x06801c1;
    qpll_fbdiv = fbdiv;
    qpll_fbdiv_ratio = ratio;
    qpll_refclk_div = c.m;
  }

  unfoldable pub quad_params : Quad.Config F VcoBand → Option QuadParams
  unfolding lookup quad_at
  quad_params c =
      on_some (lookup fbdivs c.n)
        (λ fbdiv. on_some (lookup fbdiv_ratios c.n) (λ ratio. some (quad_at c fbdiv ratio)))

  params-HasKey :
      (c : Quad.Config F VcoBand)
      → HasKey fbdivs c.n
      → HasKey fbdiv_ratios c.n
      → (p : QuadParams) × (quad_params c ≡ some p)
  unfolding quad_params
  params-HasKey c (v, e) (w, g) = (
    quad_at c v w,
    ap (λ o. on_some o (λ x. on_some (lookup fbdiv_ratios c.n) (λ y. some (quad_at c x y)))) e
        ∙ ap (λ o. on_some o (λ y. some (quad_at c v y))) g,
  )

  -- Every configuration of GTXQuadPLL has the parameters of the common primitive, and an entry in
  -- the table of the receivers.
  pub gtx_quad_params :
      (refclk_freq linerate : F.Freq) (c : Quad.Config F VcoBand)
      → gtx_quad_config F refclk_freq linerate ≡ some c
      → ((p : QuadParams) × (quad_params c ≡ some p)) × HasKey gtx_rxcdr_cfgs c.d
  gtx_quad_params r l c h =
      let s = quad_sound F ns_7series (vco_band F) (IsVcoBand F) (vco_band-IsVcoBand F) r l c h in
      (
        params-HasKey c (All-Memᴰ (HasKey fbdivs) ns_7series fbdivs-All c.n s.n_choice)
            (All-Memᴰ (HasKey fbdiv_ratios) ns_7series fbdiv_ratios-All c.n s.n_choice),
        All-Memᴰ (HasKey gtx_rxcdr_cfgs) Quad.ds gtx_rxcdr_cfgs-All c.d s.d_choice,
      )

  -- Every configuration of GTXChannelPLL and of GTPQuadPLL has an entry in the table of its
  -- receivers.
  pub channel_rxcdr :
      (refclk_freq linerate : F.Freq)
      → ((c : Channel.Config F)
          → gtx_config F refclk_freq linerate ≡ some c
          → HasKey gtx_rxcdr_cfgs c.d)
        × ((c : Channel.Config F)
            → gtp_config F refclk_freq linerate ≡ some c
            → HasKey gtp_rxcdr_cfgs c.d)
  channel_rxcdr r l = (
    λ c h.
        All-Memᴰ (HasKey gtx_rxcdr_cfgs) ds_16 gtx_rxcdr_cfgs-All c.d
          (channel_sound F ds_16 1600 3300 r l c h).d_choice,
    λ c h.
        All-Memᴰ (HasKey gtp_rxcdr_cfgs) ds_16 gtp_rxcdr_cfgs-All c.d
          (channel_sound F ds_16 1600 3300 r l c h).d_choice,
  )

  multipliers-All : (f : F.Freq) → All (HasKey refck_modes) (multipliers F f)
  unfolding multipliers
  multipliers-All f = refck-if (F.same f (F.mhz 100))

  -- Every configuration of SerDesECP5PLL has an entry in the tables of the reference clock and of
  -- the clock dividers.
  pub ecp5_params :
      (refclk_freq linerate : F.Freq) (c : Ecp5.Config F)
      → Ecp5.compute_config F refclk_freq linerate ≡ inr c
      → HasKey refck_modes c.m × HasKey ck_divs c.d
  ecp5_params r l c h =
      let s = ecp5_sound F r l c h in
      (
        All-Memᴰ (HasKey refck_modes) (multipliers F r) (multipliers-All r) c.m s.m_choice,
        All-Memᴰ (HasKey ck_divs) from_highest ck_divs-All c.d s.d_choice,
      )
