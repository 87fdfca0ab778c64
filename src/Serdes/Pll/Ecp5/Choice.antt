-- ===== src/Serdes/Pll/Ecp5/Choice.antt =====
-- The configurations that SerDesECP5PLL of liteiclink/serdes/serdes_ecp5.py returns.
use liteiclink.Base.{Option, some, none, List, [], ◌≡◌, ◌⊎◌, inl, inr, ap, sym}
use mathlib.Core.Option.{some-ne-none, some-injective}
use mathlib.Core.Sum.{inl-ne-inr, inr-injective}
use liteiclink.Serdes.Pll.{Arithmetic, IsAnswer, search-IsAnswer}
use liteiclink.Serdes.Pll.Ecp5.{
  suggest_all, dividers, multipliers, Config, IsConfig, answer, compute_config, search-IsConfig,
  search-hit,
}

module _ (F : Arithmetic) where
  answer-inr :
      (o : Option (Config F)) (fs : List F.Freq) (c : Config F) → answer F o fs ≡ inr c → o ≡ some c
  answer-inr (some a) fs c h = ap some (inr-injective a c h)
  answer-inr none fs c h = absurd (inl-ne-inr h)

  -- A configuration that is returned has its dividers from the lists, x25 for 100 MHz alone, and
  -- the line rate that was asked for.
  pub ecp5_sound :
      (refclk_freq linerate : F.Freq) (c : Config F)
      → compute_config F refclk_freq linerate ≡ inr c
      → IsConfig F refclk_freq linerate c
  unfolding compute_config
  ecp5_sound r l c h = search-IsConfig F r l c (answer-inr _ _ c h)

  -- If any configuration fits the lists and the line rate, one is returned.
  pub ecp5_complete :
      (refclk_freq linerate : F.Freq) (c : Config F)
      → IsConfig F refclk_freq linerate c
      → (x : Config F) × (compute_config F refclk_freq linerate ≡ inr x)
  unfolding compute_config
  ecp5_complete r l c p =
      let (x, e) = search-hit F r l c p in
      (x, ap (λ o. answer F o (suggest_all F l [] dividers (multipliers F r))) e)

  -- The configuration, where there is one.
  abbrev pub chosen : List F.Freq ⊎ Config F → Option (Config F)
  chosen (inl fs) = none
  chosen (inr c) = some c

  chosen-inr : (r : List F.Freq ⊎ Config F) (c : Config F) → chosen r ≡ some c → r ≡ inr c
  chosen-inr (inl fs) c h = absurd (some-ne-none c (sym h))
  chosen-inr (inr d) c h = ap inr (some-injective d c h)

  -- The ECP5 PLL returns a configuration that has its dividers from the lists, x25 for 100 MHz alone,
  -- and the line rate that was asked for, or an error where there is none.
  pub ecp5_answers :
      (refclk_freq linerate : F.Freq)
      → IsAnswer (IsConfig F refclk_freq linerate) (chosen (compute_config F refclk_freq linerate))
  ecp5_answers r l =
      search-IsAnswer (IsConfig F r l) (chosen (compute_config F r l))
        (λ c h. ecp5_sound r l c (chosen-inr (compute_config F r l) c h))
        (λ c p. let (x, e) = ecp5_complete r l c p in (x, ap chosen e))
