-- ===== src/Serdes/Pll.antt =====
-- How the PLLs of liteiclink/serdes search for their dividers: loops over lists that return at the
-- first hit, over the floating point numbers of Python, which are a parameter.
pub mod Channel
pub mod Quad
pub mod Gty
pub mod Ecp5
pub mod Tables
use liteiclink.Base.{
  ℕ, Bool, true, false, Option, some, none, List, [], ◌∷◌, ◌≡◌, ◌⊎◌, inl, inr, refl, ap,
  if◌then◌else◌, ◌∙◌, sym, All,
}
use mathlib.Core.List.{Memᴰ}
use mathlib.Core.List.Memᴰ.{head, tail}
use mathlib.Core.Path.{subst}
use mathlib.Core.Option.{some-ne-none}

pub All-Memᴰ : {A : Type 0} (P : A → Type 0) (xs : List A) → All P xs → (x : A) → Memᴰ x xs → P x
All-Memᴰ P [] a x m = elim m [ ]
All-Memᴰ P (y ∷ xs) (p, a) x (head e) = subst P (sym e) p
All-Memᴰ P (y ∷ xs) (p, a) x (tail m) = All-Memᴰ P xs a x m

-- `x * n`, `x / n`, `x <= y`, `x == y` and the constant of `n` MHz.
pub record Arithmetic : Type 1 where
  pub Freq : Type 0
  pub times : Freq → ℕ → Freq
  pub over : Freq → ℕ → Freq
  pub at_most : Freq → Freq → Bool
  pub same : Freq → Freq → Bool
  pub mhz : ℕ → Freq

module _ {B : Type 0} where
  abbrev pub or_else : Option B → Option B → Option B
  or_else (some b) o = some b
  or_else none o = o

  or_else-cases : (o p : Option B) (b : B) → or_else o p ≡ some b → (o ≡ some b) ⊎ (p ≡ some b)
  or_else-cases (some a) p b h = inl h
  or_else-cases none p b h = inr h

  or_else-right : (o p : Option B) (c : B) → p ≡ some c → (d : B) × (or_else o p ≡ some d)
  or_else-right (some a) p c h = (a, refl)
  or_else-right none p c h = (c, h)

  pub if-some :
      (t : Bool) (o : Option B) (b : B)
      → (if t then o else none) ≡ some b
      → (t ≡ true) × (o ≡ some b)
  if-some true o b h = (refl, h)
  if-some false o b h = absurd (some-ne-none b (sym h))

  pub if-hit : (t : Bool) (o : Option B) → t ≡ true → (if t then o else none) ≡ o
  if-hit t o h = ap (λ b. if b then o else none) h

module _ {A B : Type 0} where
  -- What follows the test `is not None`.
  abbrev pub on_some : Option A → (A → Option B) → Option B
  on_some (some a) f = f a
  on_some none f = none

  pub on_some-some :
      (o : Option A) (f : A → Option B) (b : B)
      → on_some o f ≡ some b
      → (a : A) × (o ≡ some a) × (f a ≡ some b)
  on_some-some (some a) f b h = (a, refl, h)
  on_some-some none f b h = absurd (some-ne-none b (sym h))

  -- A loop over a list that returns at the first hit.
  unfoldable pub first_of : List A → (A → Option B) → Option B
  first_of [] f = none
  first_of (x ∷ xs) f = or_else (f x) (first_of xs f)

  pub first_of-some :
      (xs : List A) (f : A → Option B) (b : B)
      → first_of xs f ≡ some b
      → (x : A) × Memᴰ x xs × (f x ≡ some b)
  unfolding first_of
  first_of-some [] f b h = absurd (some-ne-none b (sym h))
  first_of-some (x ∷ xs) f b h = elim (or_else-cases (f x) (first_of xs f) b h) [
    | inl e ↦ (x, head refl, e)
    | inr e ↦ let (y, m, e) = first_of-some xs f b e in (y, tail m, e)
  ]

  pub first_of-hit :
      (xs : List A) (f : A → Option B) (x : A) (b : B)
      → Memᴰ x xs
      → f x ≡ some b
      → (c : B) × (first_of xs f ≡ some c)
  unfolding first_of
  first_of-hit [] f x b m h = elim m [ ]
  first_of-hit (y ∷ xs) f x b (head e) h =
      (b, ap (λ o. or_else o (first_of xs f)) (ap f (sym e) ∙ h))
  first_of-hit (y ∷ xs) f x b (tail m) h =
      let (c, e) = first_of-hit xs f x b m h in or_else-right (f y) (first_of xs f) c e

-- What a search for something with the property `P` may answer: one, or nothing where there is none.
module _ {A : Type 0} (P : A → Type 0) where
  abbrev pub IsAnswer : Option A → Type 0
  IsAnswer (some a) = P a
  IsAnswer none = (a : A) → ¬ P a

  pub search-IsAnswer :
      (o : Option A)
      → ((a : A) → o ≡ some a → P a)
      → ((a : A) → P a → (b : A) × (o ≡ some b))
      → IsAnswer o
  search-IsAnswer (some a) sound complete = sound a refl
  search-IsAnswer none sound complete = λ a p. let (b, e) = complete a p in some-ne-none b (sym e)
