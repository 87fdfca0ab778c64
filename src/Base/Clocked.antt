-- ===== src/Base/Clocked.antt =====
-- A synchronous circuit over a sequence of clock cycles: the registers start in `s`, and one
-- element of the list holds the inputs of one cycle.
use Prim.Native.Nat.{ℕ, zero, suc, ◌+◌, ◌≤◌, ◌<◌}
use native.Mathlib.Decide.{dec_lt}
use native.Mathlib.Omega.{arith}
use mathlib.Core.Path.{◌≡◌, refl, subst}
use mathlib.Core.Logic.{◌⊎◌, inl, inr}
use mathlib.Core.Bool.{Bool, ◌&&◌}
use mathlib.Core.List.{List, [], ◌∷◌, ◌++◌}

module _ {ℓ κ} {S : Type ℓ} {I : Type κ} (next : S → I → S) where
  -- The registers after all the cycles.
  abbrev pub clock : S → List I → S
  clock s [] = s
  clock s (i ∷ is) = clock (next s i) is

  pub clock-append : (s : S) (is js : List I) → clock s (is ++ js) ≡ clock (clock s is) js
  clock-append s [] js = refl
  clock-append s (i ∷ is) js = clock-append (next s i) is js

  -- What every cycle keeps holds after any number of them.
  pub clock_inv {μ} :
      (P : S → Type μ)
      → ((s : S) (i : I) → P s → P (next s i))
      → (s : S) (is : List I) → P s
      → P (clock s is)
  clock_inv P keep s [] h = h
  clock_inv P keep s (i ∷ is) h = clock_inv P keep (next s i) is (keep s i h)

-- One cycle at the two ends of a stream: whether the sender presents a transfer, and whether the
-- receiver is ready.
pub record Slot : Type 0 where
  pub present : Bool
  pub ready : Bool

-- A slot without gap or stall.
abbrev pub moves : Slot → Bool
moves p = p.present && p.ready

-- The states that a closed circuit passes through.
pub data Reaches {ℓ} {S : Type ℓ} (next : S → S) : S → S → Type ℓ where
  here : {s : S} → Reaches next s s
  step : {s t : S} → Reaches next (next s) t → Reaches next s t

pub Reaches-trans {ℓ} :
    {S : Type ℓ} {next : S → S} {s t u : S} → Reaches next s t → Reaches next t u → Reaches next s u
Reaches-trans here r = r
Reaches-trans (step q) r = step (Reaches-trans q r)

-- A moment at which the circuit is in a state with the property.
abbrev pub Eventually {ℓ κ} : {S : Type ℓ} → (S → S) → S → (S → Type κ) → Type (ℓ ⊔ κ)
Eventually {S} next s P = (t : S) × Reaches next s t × P t

pub Eventually-then {ℓ κ μ} :
    {S : Type ℓ} {next : S → S} {P : S → Type κ} {Q : S → Type μ} {s : S}
    → Eventually next s P
    → ((t : S) → P t → Eventually next t Q)
    → Eventually next s Q
Eventually-then (t, r, p) f = let (u, q, x) = f t p in (u, Reaches-trans r q, x)

-- From every state with the property `P` the circuit comes to one with the property `Q`.
abbrev pub Goes {ℓ κ μ} : {S : Type ℓ} → (S → S) → (S → Type κ) → (S → Type μ) → Type (ℓ ⊔ κ ⊔ μ)
Goes {S} next P Q = (s : S) → P s → Eventually next s Q

module _ {ℓ} {S : Type ℓ} {next : S → S} where
  pub once {κ μ} : {P : S → Type κ} {Q : S → Type μ} → ((s : S) → P s → Q (next s)) → Goes next P Q
  once f s p = (next s, step here, f s p)

  pub already {κ μ} : {P : S → Type κ} {Q : S → Type μ} → ((s : S) → P s → Q s) → Goes next P Q
  already f s p = (s, here, f s p)

  infixl 20 ◌>>>◌
  pub ◌>>>◌ {κ μ ν} :
      {P : S → Type κ} {Q : S → Type μ} {R : S → Type ν}
      → Goes next P Q
      → Goes next Q R
      → Goes next P R
  ◌>>>◌ f g s p = Eventually-then (f s p) g

  -- A step for each number from `a` on.
  pub steps {κ} :
      (P : ℕ → S → Type κ) (n a b : ℕ)
      → a + n ≡ b
      → ((d : ℕ) → a ≤ d → d < b → Goes next (P d) (P (d + 1)))
      → Goes next (P a) (P b)
  steps P zero a b e f = λ s p. (s, here, subst (λ j. P j s) (omega arith) p)
  steps P (suc n) a b e f =
      f a (omega arith) (omega arith)
      >>> steps P n (a + 1) b (omega arith) (λ d l h. f d (omega arith) h)

  -- Where each step from `P` leads to `Q` or makes a number smaller, the circuit comes to `Q`.
  module _ {κ μ} {P : S → Type κ} {Q : S → Type μ} (measure : S → ℕ)
      (descend : (s : S) → P s → Q (next s) ⊎ (P (next s) × (measure (next s) < measure s))) where
    descends_within : (fuel : ℕ) (s : S) → measure s < fuel → P s → Eventually next s Q
    descends_within zero s h p = absurd (omega arith)
    descends_within (suc fuel) s h p = elim (descend s p) [
      | inl q ↦ (next s, step here, q)
      | inr (p', less) ↦
          let (t, r, q) = descends_within fuel (next s) (omega arith) p' in (t, step r, q)
    ]

    pub descends : Goes next P Q
    descends s p = descends_within (measure s + 1) s (omega arith) p

  -- Where each step from `P` keeps `P` and makes a number smaller, the number gets 0.
  module _ {κ} {P : S → Type κ} (measure : S → ℕ)
      (descend : (s : S) → P s → 0 < measure s → P (next s) × (measure (next s) < measure s)) where
    runs_out_within :
        (fuel : ℕ) (s : S) → measure s < fuel → P s → Eventually next s (λ t. P t × (measure t ≡ 0))
    runs_out_within zero s h p = absurd (omega arith)
    runs_out_within (suc fuel) s h p = elim (dec_lt 0 (measure s)) [
      | yes more ↦
          let (p', less) = descend s p more in
          let (t, r, q) = runs_out_within fuel (next s) (omega arith) p' in (t, step r, q)
      | no over ↦ (s, here, (p, omega arith))
    ]

    pub runs_out : Goes next P (λ s. P s × (measure s ≡ 0))
    runs_out s p = runs_out_within (measure s + 1) s (omega arith) p
