-- ===== src/Serdes/Pll/Ecp5/Suggested.antt =====
-- The reference clocks that SerDesECP5PLL of liteiclink/serdes/serdes_ecp5.py suggests in its error.
use liteiclink.Base.{
  ℕ, Bool, true, false, Option, some, none, List, [], ◌∷◌, ◌++◌, ◌≡◌, inl, inr, refl, ap, ◌∙◌, sym,
  ◌&&◌, if◌then◌else◌, All,
}
use liteiclink.Serdes.Pll.{Arithmetic, All-Memᴰ}
use liteiclink.Serdes.Pll.Ecp5.{
  Config, answer, search, compute_config, multipliers, usual, dividers, from_highest, suggest,
  suggest_each, suggest_all, config,
}
use liteiclink.Serdes.Pll.Ecp5.Choice.{ecp5_complete}
use mathlib.Core.List.{Memᴰ}
use mathlib.Core.List.Memᴰ.{head, tail, append_left}
use mathlib.Core.Sum.{inl-injective, inr-ne-inl}
use mathlib.Core.Path.{subst}

All-snoc :
    {A : Type 0} (P : A → Type 0) (xs : List A) (x : A) → All P xs → P x → All P (xs ++ (x ∷ []))
All-snoc P [] x a p = (p, _)
All-snoc P (y ∷ xs) x (q, a) p = (q, All-snoc P xs x a p)

All-if :
    {A : Type 0} (P : A → Type 0) (a b : Bool) (xs : List A) (x : A)
    → All P xs
    → (a ≡ true → P x)
    → All P (if a && b then xs ++ (x ∷ []) else xs)
All-if P true true xs x h p = All-snoc P xs x h (p refl)
All-if P true false xs x h p = h
All-if P false b xs x h p = h

reversed : (d : ℕ) → Memᴰ d dividers → Memᴰ d from_highest
reversed =
    All-Memᴰ (λ d. Memᴰ d from_highest) dividers
      (
        tail (tail (tail (tail (tail (head refl))))),
        (
          tail (tail (tail (tail (head refl)))),
          (
            tail (tail (tail (head refl))),
            (tail (tail (head refl)), (tail (head refl), (head refl, _))),
          ),
        ),
      )

usual-if : (t : Bool) (m : ℕ) → Memᴰ m usual → Memᴰ m (if t then usual ++ (25 ∷ []) else usual)
usual-if true m k = append_left (25 ∷ []) k
usual-if false m k = k

module _ (F : Arithmetic) (linerate : F.Freq) where
  record IsSuggestion (ms : List ℕ) (f : F.Freq) : Type 0 where
    d : ℕ
    m : ℕ
    d_choice : Memᴰ d dividers
    m_choice : Memᴰ m ms
    value : f ≡ F.over (F.times linerate d) m
    range : F.at_most f (F.mhz 250) ≡ true

  module _ (ms : List ℕ) where
    suggest-All :
        (fs : List F.Freq) (d m : ℕ)
        → Memᴰ d dividers
        → Memᴰ m ms
        → All (IsSuggestion ms) fs
        → All (IsSuggestion ms) (suggest F linerate fs d m)
    unfolding suggest
    suggest-All fs d m i j a =
        All-if (IsSuggestion ms) _ _ fs _ a
          (λ r. record { d = d; m = m; d_choice = i; m_choice = j; value = refl; range = r })

    suggest_each-All :
        (fs : List F.Freq) (d : ℕ) (ns : List ℕ)
        → Memᴰ d dividers
        → ((m : ℕ) → Memᴰ m ns → Memᴰ m ms)
        → All (IsSuggestion ms) fs
        → All (IsSuggestion ms) (suggest_each F linerate fs d ns)
    unfolding suggest_each
    suggest_each-All fs d [] i s a = a
    suggest_each-All fs d (n ∷ ns) i s a =
        suggest_each-All (suggest F linerate fs d n) d ns i (λ m k. s m (tail k))
          (suggest-All fs d n i (s n (head refl)) a)

    suggest_all-All :
        (fs : List F.Freq) (ds : List ℕ)
        → ((d : ℕ) → Memᴰ d ds → Memᴰ d dividers)
        → All (IsSuggestion ms) fs
        → All (IsSuggestion ms) (suggest_all F linerate fs ds ms)
    unfolding suggest_all
    suggest_all-All fs [] s a = a
    suggest_all-All fs (d ∷ ds) s a =
        suggest_all-All (suggest_each F linerate fs d ms) ds (λ e k. s e (tail k))
          (suggest_each-All fs d ms (s d (head refl)) (λ m k. k) a)

  answer-inl : (o : Option (Config F)) (gs fs : List F.Freq) → answer F o gs ≡ inl fs → gs ≡ fs
  answer-inl (some c) gs fs h = absurd (inr-ne-inl h)
  answer-inl none gs fs h = inl-injective gs fs h

  usual-always : (f : F.Freq) (m : ℕ) → Memᴰ m usual → Memᴰ m (multipliers F f)
  unfolding multipliers
  usual-always f m k = usual-if (F.same f (F.mhz 100)) m k

  usual-only : (f : F.Freq) → F.same f (F.mhz 100) ≡ false → multipliers F f ≡ usual
  unfolding multipliers
  usual-only f h = ap (λ t. if t then usual ++ (25 ∷ []) else usual) h

  suggested-IsSuggestion :
      (r : F.Freq) (fs : List F.Freq)
      → F.same r (F.mhz 100) ≡ false
      → compute_config F r linerate ≡ inl fs
      → All (IsSuggestion usual) fs
  unfolding compute_config
  suggested-IsSuggestion r fs o h =
      subst (All (IsSuggestion usual))
        (ap (suggest_all F linerate [] dividers) (sym (usual-only r o))
          ∙ answer-inl (search F r linerate) _ fs h)
        (suggest_all-All usual [] dividers (λ d k. k) _)

  -- Dividing the line rate to a reference clock and multiplying back gives the line rate.
  abbrev pub IsExact : ℕ → ℕ → Type 0
  IsExact d m = F.same (F.over (F.times (F.over (F.times linerate d) m) m) d) linerate ≡ true

  -- Where a reference clock other than 100 MHz is refused, every clock that the error suggests is at
  -- most 250 MHz and is accepted for the same line rate, if the arithmetic is exact for that rate.
  pub suggested_accepted :
      (refclk_freq : F.Freq) (fs : List F.Freq) (f : F.Freq)
      → F.same refclk_freq (F.mhz 100) ≡ false
      → All (λ d. All (IsExact d) usual) dividers
      → compute_config F refclk_freq linerate ≡ inl fs
      → Memᴰ f fs
      → (F.at_most f (F.mhz 250) ≡ true) × ((c : Config F) × (compute_config F f linerate ≡ inr c))
  suggested_accepted r fs f o exact h k =
      let s = All-Memᴰ (IsSuggestion usual) fs (suggested-IsSuggestion r fs o h) f k in
      let rate =
        All-Memᴰ (IsExact s.d) usual
          (All-Memᴰ (λ d. All (IsExact d) usual) dividers exact s.d s.d_choice) s.m s.m_choice in
      (
        s.range,
        ecp5_complete F f linerate (config F f linerate s.d s.m) (record {
          m_choice = usual-always f s.m s.m_choice;
          d_choice = reversed s.d s.d_choice;
          from_clkin = refl;
          asked = refl;
          from_m = refl;
          rate = ap (λ g. F.same (F.over (F.times g s.m) s.d) linerate) s.value ∙ rate;
        }),
      )
