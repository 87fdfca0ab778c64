-- ===== src/Serdes/Pll/Ecp5.antt =====
-- `compute_config` of SerDesECP5PLL in liteiclink/serdes/serdes_ecp5.py.
pub mod Choice
pub mod Suggested
use liteiclink.Base.{
  ℕ, Bool, true, false, Option, some, none, List, [], ◌∷◌, ◌++◌, ◌≡◌, ◌⊎◌, inl, inr, refl, ap, ◌&&◌,
  ◌||◌, not, if◌then◌else◌, sym, ◌∙◌,
}
use liteiclink.Serdes.Pll.{Arithmetic, first_of, first_of-some, first_of-hit, if-some, if-hit}
use mathlib.Core.List.{Memᴰ}
use mathlib.Core.Option.{some-injective}
use mathlib.Core.Path.{subst}

abbrev pub usual : List ℕ
usual = 8 ∷ 10 ∷ 16 ∷ 20 ∷ []

abbrev pub dividers : List ℕ
dividers = 1 ∷ 2 ∷ 4 ∷ 8 ∷ 16 ∷ 32 ∷ []

-- `reversed(dividers)`
abbrev pub from_highest : List ℕ
from_highest = 32 ∷ 16 ∷ 8 ∷ 4 ∷ 2 ∷ 1 ∷ []

module _ (F : Arithmetic) where
  pub record Config : Type 0 where
    pub clkin : F.Freq
    pub m : ℕ
    pub d : ℕ
    pub vco_freq : F.Freq
    pub linerate : F.Freq

  -- x25 for 100 MHz only.
  unfoldable pub multipliers : F.Freq → List ℕ
  multipliers refclk_freq = if F.same refclk_freq (F.mhz 100) then usual ++ (25 ∷ []) else usual

  -- `f in refclks`
  unfoldable pub listed : F.Freq → List F.Freq → Bool
  listed f [] = false
  listed f (g ∷ fs) = F.same f g || listed f fs

  module _ (linerate : F.Freq) where
    -- The body of the inner loop over the suggestions, and the two loops.
    unfoldable pub suggest : List F.Freq → ℕ → ℕ → List F.Freq
    unfolding listed
    suggest refclks d m =
        let f = F.over (F.times linerate d) m in
        if F.at_most f (F.mhz 250) && not (listed f refclks) then refclks ++ (f ∷ []) else refclks

    unfoldable pub suggest_each : List F.Freq → ℕ → List ℕ → List F.Freq
    unfolding suggest
    suggest_each refclks d [] = refclks
    suggest_each refclks d (m ∷ ms) = suggest_each (suggest refclks d m) d ms

    unfoldable pub suggest_all : List F.Freq → List ℕ → List ℕ → List F.Freq
    unfolding suggest_each
    suggest_all refclks [] ms = refclks
    suggest_all refclks (d ∷ ds) ms = suggest_all (suggest_each refclks d ms) ds ms

  -- `return` in the loop, or `raise` after it.
  abbrev pub answer : Option Config → List F.Freq → List F.Freq ⊎ Config
  answer (some c) fs = inr c
  answer none fs = inl fs

  module _ (refclk_freq linerate : F.Freq) where
    abbrev pub config : ℕ → ℕ → Config
    config d m = record {
      clkin = refclk_freq;
      m = m;
      d = d;
      vco_freq = F.times refclk_freq m;
      linerate = linerate;
    }

    abbrev pub gives : ℕ → ℕ → Bool
    gives d m = F.same (F.over (F.times refclk_freq m) d) linerate

    unfoldable pub search : Option Config
    unfolding multipliers
    search = first_of from_highest (λ d.
        first_of (multipliers refclk_freq) (λ m. if gives d m then some (config d m) else none))

    -- The configuration, or the reference clocks that the message of the ValueError suggests.
    unfoldable pub compute_config : List F.Freq ⊎ Config
    unfolding search suggest_all multipliers
    compute_config = answer search (suggest_all linerate [] dividers (multipliers refclk_freq))

    -- What a configuration has to be, by itself.
    pub record IsConfig (c : Config) : Type 0 where
      pub m_choice : Memᴰ c.m (multipliers refclk_freq)
      pub d_choice : Memᴰ c.d from_highest
      pub from_clkin : c.clkin ≡ refclk_freq
      pub asked : c.linerate ≡ linerate
      pub from_m : c.vco_freq ≡ F.times refclk_freq c.m
      pub rate : gives c.d c.m ≡ true

    pub search-IsConfig : (c : Config) → search ≡ some c → IsConfig c
    unfolding search
    search-IsConfig c h =
        let (d, i, h) = first_of-some from_highest _ c h in
        let (m, j, h) = first_of-some (multipliers refclk_freq) _ c h in
        let (r, h) = if-some _ _ c h in
        subst IsConfig (some-injective _ _ h) (record {
          m_choice = j;
          d_choice = i;
          from_clkin = refl;
          asked = refl;
          from_m = refl;
          rate = r;
        })

    pub search-hit : (c : Config) → IsConfig c → (x : Config) × (search ≡ some x)
    unfolding search
    search-hit c p =
        let (x, h) =
          first_of-hit (multipliers refclk_freq) _ c.m (config c.d c.m) p.m_choice
            (if-hit _ _ p.rate) in
        first_of-hit from_highest _ c.d x p.d_choice h
