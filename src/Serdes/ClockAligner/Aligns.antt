-- ===== src/Serdes/ClockAligner/Aligns.antt =====
-- What brings the FSM of liteiclink/serdes/clock_aligner.py to READY, and what it has seen there.
use liteiclink.Base.{
  ℕ, ◌+◌, ◌-◌, ◌*◌, ◌≤◌, Bool, true, false, not, ◌&&◌, List, [], ◌∷◌, ◌≡◌, refl, arith, clock,
  length, in_order, in_order-cons, drop, in_order-drop, if◌then◌else◌,
}
use liteiclink.Serdes.ClockAligner.{
  Fsm, Aligner, Input, wait_comma, wait_noerror, ready, act, next, power_on,
}

-- What the FSM looks at: the flags in the cycle of a check, and errors in READY.
abbrev pub good_at : Fsm → Aligner → Input → Bool
good_at ready s n = not n.error_seen
good_at _ s n = if s.check then n.comma_seen && not n.error_seen else true

-- The aligner is enabled, at each check a comma has been seen and no error, and in READY no error is.
-- Between the checks the flags, which a check clears, may be anything.
abbrev pub steady : ℕ → Aligner → List Input → Bool
steady top s [] = true
steady top s (n ∷ ns) =
    let rest = steady top (next top s n) ns in not n.disable && (good_at s.fsm s n && rest)

-- Cycles until the next check, and until READY.
abbrev until_check : Aligner → ℕ
until_check s = elim s.check [ true ↦ 0 | false ↦ s.check_counter + 1 ]

abbrev rank_at : ℕ → Fsm → ℕ → ℕ
rank_at top wait_comma k = k + (top + 2)
rank_at top wait_noerror k = k + 1
rank_at top ready k = 0

abbrev rank : ℕ → Aligner → ℕ
rank top s = rank_at top s.fsm (until_check s)

record Bounded (top : ℕ) (s : Aligner) : Type 0 where
  counter : s.check_counter ≤ top

next-Bounded : (top : ℕ) (s : Aligner) (n : Input) → Bounded top s → Bounded top (next top s n)
unfolding next
next-Bounded top s n b = ground arith

rank-next-at :
    (top : ℕ) (f : Fsm) (s : Aligner) (n : Input)
    → s.fsm ≡ f
    → Bounded top s
    → n.disable ≡ false
    → good_at f s n ≡ true
    → rank top (next top s n) ≤ rank top s - 1
unfolding next
rank-next-at top wait_comma s n e b d h = ground arith
rank-next-at top wait_noerror s n e b d h = ground arith
rank-next-at top ready s n e b d h = ground arith

rank-clock :
    (top : ℕ) (s : Aligner) (ns : List Input)
    → Bounded top s
    → steady top s ns ≡ true
    → rank top (clock (next top) s ns) ≤ rank top s - length ns
rank-clock top s [] b a = omega arith
rank-clock top s (n ∷ ns) b a =
    let step : rank top (next top s n) ≤ rank top s - 1 =
      rank-next-at top s.fsm s n refl b (ground arith) (ground arith) in
    omega (arith, step, rank-clock top (next top s n) ns (next-Bounded top s n b) (ground arith))

rank-ready : (top : ℕ) (s : Aligner) → rank top s ≤ 0 → s.fsm ≡ ready
rank-ready top s h = ground arith

rank-bound : (top : ℕ) (s : Aligner) → Bounded top s → rank top s ≤ 2 * top + 3
rank-bound top s b = ground arith

-- From every state whose counter is at most `top`, the aligner is READY after any 2 * top + 3 or
-- more cycles in which it is enabled, finds a comma and no error at each check, and finds no error in
-- READY, whatever the flags are in the other cycles.
pub aligner_aligns :
    (top : ℕ) (s : Aligner) (ns : List Input)
    → s.check_counter ≤ top
    → steady top s ns ≡ true
    → 2 * top + 3 ≤ length ns
    → (clock (next top) s ns).fsm ≡ ready
aligner_aligns top s ns b a l = rank-ready top (clock (next top) s ns) (
    omega (
      arith,
      rank-clock top s ns (record { counter = b }) a,
      rank-bound top s (record { counter = b }),
    ))

abbrev pub events : List (Input → Bool)
events = (λ n. n.comma_seen) ∷ (λ n. n.comma_seen && not n.error_seen) ∷ []

abbrev seen : Fsm → ℕ
seen wait_comma = 0
seen wait_noerror = 1
seen ready = 2

act-left :
    (f : Fsm) (s : Aligner) (n : Input) (ns : List Input)
    → in_order (drop (seen (act f s n).1) events) ns ≡ true
    → in_order (drop (seen f) events) (n ∷ ns) ≡ true
unfolding act
act-left wait_comma s n ns h = ground (arith, in_order-cons events n ns)
act-left wait_noerror s n ns h =
    ground (arith, in_order-drop 1 events ns, in_order-cons (drop 1 events) n ns)
act-left ready s n ns h = refl

clock-left :
    (top : ℕ) (s : Aligner) (ns : List Input)
    → (clock (next top) s ns).fsm ≡ ready
    → in_order (drop (seen s.fsm) events) ns ≡ true
unfolding next
clock-left top s [] h = rw h
clock-left top s (n ∷ ns) h = act-left s.fsm s n ns (clock-left top (next top s n) ns h)

-- When the aligner is READY, the cycles since power-on have shown a comma and, in a later cycle, a
-- comma without an error.
pub aligner_ready_order :
    (top : ℕ) (ns : List Input)
    → (clock (next top) power_on ns).fsm ≡ ready
    → in_order events ns ≡ true
aligner_ready_order top ns h = clock-left top power_on ns h
