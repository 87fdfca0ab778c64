-- ===== src/Base/Sequence.antt =====
-- Events that a run has seen in a given order.
use liteiclink.Base.Tests.{if◌then◌else◌}
use Prim.Native.Nat.{ℕ, zero, suc}
use mathlib.Core.Path.{◌≡◌, refl}
use mathlib.Core.Bool.{Bool, true, false}
use mathlib.Core.List.{List, [], ◌∷◌}
use native.Mathlib.Omega.{arith}

module _ {ℓ} {A : Type ℓ} where
  abbrev pub drop : ℕ → List A → List A
  drop zero xs = xs
  drop (suc n) [] = []
  drop (suc n) (x ∷ xs) = drop n xs

module _ {ℓ} {I : Type ℓ} where
  -- The cycles show the events one after the other, each in a cycle of its own and with any other
  -- cycles between them.
  abbrev pub in_order : List (I → Bool) → List I → Bool
  in_order [] ns = true
  in_order (e ∷ es) [] = false
  in_order (e ∷ es) (n ∷ ns) = in_order (if e n then es else e ∷ es) ns

  in_order-tail :
      (e : I → Bool) (es : List (I → Bool)) (ns : List I)
      → in_order (e ∷ es) ns ≡ true
      → in_order es ns ≡ true
  in_order-tail e [] ns h = refl
  in_order-tail e (d ∷ es) [] h = h
  in_order-tail e (d ∷ es) (n ∷ ns) h =
      ground (arith, in_order-tail e (d ∷ es) ns, in_order-tail d es ns)

  pub in_order-drop :
      (k : ℕ) (es : List (I → Bool)) (ns : List I)
      → in_order es ns ≡ true
      → in_order (drop k es) ns ≡ true
  in_order-drop zero es ns h = h
  in_order-drop (suc k) [] ns h = h
  in_order-drop (suc k) (e ∷ es) ns h = in_order-drop k es ns (in_order-tail e es ns h)

  -- One more cycle in front, whatever it shows.
  pub in_order-cons :
      (es : List (I → Bool)) (n : I) (ns : List I)
      → in_order es ns ≡ true
      → in_order es (n ∷ ns) ≡ true
  in_order-cons [] n ns h = refl
  in_order-cons (e ∷ es) n ns h = ground (arith, in_order-tail e es ns)
