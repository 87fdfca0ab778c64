-- ===== src/Base/Waiting.antt =====
-- A circuit that waits for its timer.
use liteiclink.Base.Lists.{length}
use liteiclink.Base.Clocked.{clock, here, step, Eventually}
use liteiclink.Base.Tests.{Bool-cases}
use liteiclink.Base.Timer.{WaitTimer, tick-busy}
use Prim.Native.Nat.{ℕ, zero, suc, ◌+◌, ◌≤◌}
use mathlib.Core.Path.{◌≡◌, refl, ap}
use mathlib.Core.Logic.{◌⊎◌, inl, inr}
use mathlib.Core.Bool.{true, false}
use mathlib.Core.List.{List, [], ◌∷◌, ◌++◌}
use native.Mathlib.Omega.{arith}

module _ {ℓ κ} (T : WaitTimer) {S : Type ℓ} (next : S → S) (timer : S → T.State) (P : S → Type κ)
    (keep : (s : S)
      → P s
      → T.done (timer s) ≡ false
      → P (next s) × (timer (next s) ≡ T.tick true (timer s))) where
  waits_for :
      (k : ℕ) (s : S)
      → T.remaining (timer s) ≡ k
      → P s
      → Eventually next s (λ t. P t × (T.done (timer t) ≡ true))
  waits_for zero s e p = (s, here, (p, T.done-remaining (timer s) e))
  waits_for (suc k) s e p = elim (Bool-cases (T.done (timer s))) [
    | inl d ↦ (s, here, (p, d))
    | inr b ↦
        let (p', ticked) = keep s p b in
        let (t, r, q) = waits_for k (next s) (rw ticked (T.tick-remaining (timer s) k e)) p' in
        (t, step r, q)
  ]

  -- If it keeps `P` and its timer runs as long as the timer is not done, then the timer gets done
  -- while `P` holds.
  pub waits : (s : S) → P s → Eventually next s (λ t. P t × (T.done (timer t) ≡ true))
  waits s p = waits_for (T.remaining (timer s)) s refl p

-- One of the moments of a run, its start and its end included, has the property.
abbrev pub Within {ℓ κ μ} :
    {S : Type ℓ} {I : Type κ} → (S → I → S) → S → List I → (S → Type μ) → Type (κ ⊔ μ)
Within {I} next s ns Q =
    (before : List I) × (after : List I) × (ns ≡ before ++ after) × Q (clock next s before)

-- A timer that runs in every cycle until the goal `Q` is met, and whose end meets it, is a deadline.
module _ {ℓ κ μ ν} (T : WaitTimer) {S : Type ℓ} {I : Type κ} (next : S → I → S)
    (timer : S → T.State) (P : S → Type μ) (Q : S → Type ν)
    (progress : (s : S) (n : I)
      → P s
      → Q (next s n)
        ⊎ (P (next s n)
            × (T.done (timer s) ≡ false)
            × (timer (next s n) ≡ T.tick true (timer s)))) where
  pub deadline :
      (s : S) (ns : List I) → P s → T.remaining (timer s) + 1 ≤ length ns → Within next s ns Q
  deadline s [] p r = absurd (omega arith)
  deadline s (n ∷ ns) p r = elim (progress s n p) [
    | inl q ↦ (n ∷ [], ns, refl, q)
    | inr (p', busy, ticked) ↦
        let (a, b, split, q) =
          deadline (next s n) ns p' (rw ticked (omega (arith, tick-busy T (timer s) busy))) in
        (n ∷ a, b, ap (λ l. n ∷ l) split, q)
  ]
