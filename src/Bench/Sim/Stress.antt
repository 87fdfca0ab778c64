-- ===== src/Bench/Sim/Stress.antt =====
-- What the stress circuits of bench/serwb/sim.py do on the bus.
use liteiclink.Base.{
  ℕ, zero, suc, ◌+◌, ◌≤◌, Bool, true, none, some, List, [], ◌∷◌, ◌&&◌, ◌≡◌, refl, arith, length,
  clock, ltb, ◌==◌, if◌then◌else◌,
}
use liteiclink.Bench.Sim.{
  AltFsm, Alt, idle, write, write_check, read, read_check, alt_access, alt_act, alt_next, alt_reset,
  Delay, wait, ack, delay_act, delay_next,
}

-- The accesses that are acknowledged, `true` for a write.
abbrev pub accesses : Alt → List Bool → List Bool
accesses s [] = []
accesses s (acked ∷ ns) =
    let rest = accesses (alt_next s acked) ns in
    elim (alt_access s.fsm) [ some we ↦ if acked then we ∷ rest else rest | none ↦ rest ]

-- Four writes and four reads by turns, from the place `p` of the eight on.
abbrev pub turns : ℕ → ℕ → List Bool
turns p zero = []
turns p (suc n) = ltb p 4 ∷ turns (if p == 7 then 0 else p + 1) n

-- How far `alt_fsm` is in the eight accesses.
abbrev pub place : AltFsm → Alt → ℕ
place idle s = 0
place write s = s.writes
place write_check s = s.writes
place read s = s.reads + 4
place read_check s = if s.reads == 4 then 0 else s.reads + 4

abbrev counts : AltFsm → Alt → Bool
counts idle s = s.writes == 0 && s.reads == 0
counts write s = ltb s.writes 4 && s.reads == 0
counts write_check s = ltb 0 s.writes && (ltb s.writes 5 && s.reads == 0)
counts read s = s.writes == 0 && ltb s.reads 4
counts read_check s = s.writes == 0 && (ltb 0 s.reads && ltb s.reads 5)

abbrev InTurn : Alt → Type 0
InTurn s = counts s.fsm s ≡ true

alt-counts :
    (f : AltFsm) (s : Alt) (acked : Bool)
    → s.fsm ≡ f
    → counts f s ≡ true
    → InTurn (alt_act f s acked)
unfolding alt_act
alt-counts idle s acked e h = ground arith
alt-counts write s acked e h = ground arith
alt-counts write_check s acked e h = ground arith
alt-counts read s acked e h = ground arith
alt-counts read_check s acked e h = ground arith

-- The accesses of a cycle and of those after it.
abbrev joined : AltFsm → Bool → List Bool → List Bool
joined f acked rest = elim (alt_access f) [
  | some we ↦ if acked then we ∷ rest else rest
  | none ↦ rest
]

joined-turns :
    (f : AltFsm) (s : Alt) (acked : Bool) (rest : List Bool)
    → s.fsm ≡ f
    → counts f s ≡ true
    → let t = alt_act f s acked in
      rest ≡ turns (place t.fsm t) (length rest)
      → joined f acked rest ≡ turns (place f s) (length (joined f acked rest))
unfolding alt_act alt_access
joined-turns idle s acked rest e h r = ground arith
joined-turns write s acked rest e h r = ground arith
joined-turns write_check s acked rest e h r = ground arith
joined-turns read s acked rest e h r = ground arith
joined-turns read_check s acked rest e h r = ground arith

in_turn :
    (s : Alt) (ns : List Bool)
    → InTurn s
    → accesses s ns ≡ turns (place s.fsm s) (length (accesses s ns))
unfolding alt_next
in_turn s [] h = refl
in_turn s (n ∷ ns) h =
    joined-turns s.fsm s n (accesses (alt_next s n) ns) refl h
      (in_turn (alt_next s n) ns (alt-counts s.fsm s n refl h))

-- From reset the accesses that the bus acknowledges are four writes and four reads by turns, whenever
-- it acknowledges them.
pub alt_alternates :
    (ns : List Bool) → accesses alt_reset ns ≡ turns 0 (length (accesses alt_reset ns))
alt_alternates ns = in_turn alt_reset ns refl

delay-waits :
    (s : Delay) (ns : List Bool)
    → s.fsm ≡ wait
    → s.count + length ns ≡ 16
    → 1 ≤ length ns
    → (clock delay_next s ns).fsm ≡ ack
unfolding delay_next delay_act
delay-waits s [] e h g = absurd (omega arith)
delay-waits s (n ∷ []) e h g = ground arith
delay-waits s (n ∷ m ∷ ns) e h g = ground (arith, delay-waits (delay_next s n) (m ∷ ns))

-- A request to the memory is acknowledged after 16 cycles between, whatever is on the bus in them.
pub request_acknowledged :
    (s : Delay) (ns : List Bool)
    → s.fsm ≡ idle
    → length ns ≡ 16
    → (clock delay_next s (true ∷ ns)).fsm ≡ ack
unfolding delay_next delay_act
request_acknowledged s ns e h =
    delay-waits (delay_next s true) ns (ground arith) (ground arith) (omega arith)
