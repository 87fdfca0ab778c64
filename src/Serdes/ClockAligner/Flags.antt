-- ===== src/Serdes/ClockAligner/Flags.antt =====
-- The flags of liteiclink/serdes/clock_aligner.py since the last reset of the checks.
use liteiclink.Base.{
  ℕ, Bool, true, false, ◌||◌, List, [], ◌∷◌, ◌≡◌, refl, ap, ◌∙◌, if◌then◌else◌, clock, All,
}
use liteiclink.Serdes.ClockAligner.{Rx, RxInput, ones, is_comma, is_unbalanced, rx_next}

-- Whether one of the words is a comma; and whether one of the sums is out of balance, that of the
-- first and those of all the words but the last.
abbrev pub any_comma : ℕ → List RxInput → Bool
any_comma comma [] = false
any_comma comma (n ∷ ns) = is_comma comma n.rxdata || any_comma comma ns

abbrev pub any_unbalanced : ℕ → List RxInput → Bool
any_unbalanced sum [] = false
any_unbalanced sum (n ∷ ns) = is_unbalanced sum || any_unbalanced (ones 10 n.rxdata) ns

abbrev pub NoReset : RxInput → Type 0
NoReset n = n.checks_reset ≡ false

or_false : (b : Bool) → b ≡ (b || false)
or_false true = refl
or_false false = refl

or_if : (a b x : Bool) → ((if a then true else b) || x) ≡ (b || (a || x))
or_if true true x = refl
or_if true false x = refl
or_if false b x = refl

-- A flag that a word sets and a reset clears, after a cycle without reset.
or_step :
    (r a b x : Bool)
    → r ≡ false
    → ((if r then false else if a then true else b) || x) ≡ (b || (a || x))
or_step r a b x h = ap (λ r. (if r then false else if a then true else b) || x) h ∙ or_if a b x

clock-flags :
    (comma : ℕ) (s : Rx) (ns : List RxInput)
    → All NoReset ns
    → ((clock (rx_next comma) s ns).comma_seen ≡ (s.comma_seen || any_comma comma ns))
      × ((clock (rx_next comma) s ns).error_seen ≡ (s.error_seen || any_unbalanced s.rx1cnt ns))
unfolding rx_next
clock-flags comma s [] a = (or_false s.comma_seen, or_false s.error_seen)
clock-flags comma s (n ∷ ns) (h, a) =
    let (c, e) = clock-flags comma (rx_next comma s n) ns a in
    (
      c ∙ or_step n.checks_reset (is_comma comma n.rxdata) s.comma_seen (any_comma comma ns) h,
      e
          ∙ or_step n.checks_reset (is_unbalanced s.rx1cnt) s.error_seen
              (any_unbalanced (ones 10 n.rxdata) ns) h,
    )

cleared : (r a x : Bool) → r ≡ true → ((if r then false else a) || x) ≡ x
cleared r a x h = ap (λ r. (if r then false else a) || x) h

-- After a reset of the checks and any cycles without one, the comma flag tells whether one of the
-- later words was a comma, and the error flag whether one of the words from the reset on, but the
-- last, was out of balance.
pub rx_flags :
    (comma : ℕ) (s : Rx) (n : RxInput) (ns : List RxInput)
    → n.checks_reset ≡ true
    → All NoReset ns
    → ((clock (rx_next comma) s (n ∷ ns)).comma_seen ≡ any_comma comma ns)
      × ((clock (rx_next comma) s (n ∷ ns)).error_seen ≡ any_unbalanced (ones 10 n.rxdata) ns)
unfolding rx_next
rx_flags comma s n ns r a =
    let (c, e) = clock-flags comma (rx_next comma s n) ns a in
    (
      c
          ∙ cleared n.checks_reset (if is_comma comma n.rxdata then true else s.comma_seen)
              (any_comma comma ns) r,
      e
          ∙ cleared n.checks_reset (if is_unbalanced s.rx1cnt then true else s.error_seen)
              (any_unbalanced (ones 10 n.rxdata) ns) r,
    )
