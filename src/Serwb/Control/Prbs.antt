-- ===== src/Serwb/Control/Prbs.antt =====
-- A run of the PRBS checker of liteiclink/serwb/genphy.py and liteiclink/serwb/phy.py.
use liteiclink.Base.{
  ℕ, suc, ◌+◌, ◌<◌, ◌≤◌, ◌^◌, true, List, [], ◌∷◌, ◌≡◌, arith, clock, length, count_if, All,
  if◌then◌else◌, ◌==◌,
}
use liteiclink.Serwb.Control.{Mode, Control, Input, idle, check, u32, control_next}

-- Checking, with `cycles` and `errors` counted so far, of `storage` + 1 cycles.
record Checking (storage cycles errors : ℕ) (c : Control) : Type 0 where
  in_check : c.fsm ≡ check
  cycled : c.cycles ≡ cycles
  counted : c.errors ≡ u32 errors

module _ {storage : ℕ} (fits : storage < 2 ^ 32) (m : Mode) where
  start-Checking :
      (c : Control) (n : Input)
      → c.fsm ≡ idle
      → n.start_re ≡ true
      → Checking storage 0 0 (control_next m c n)
  unfolding control_next
  start-Checking c n h s = ground arith

  step-Checking :
      (c : Control) (n : Input) (k e : ℕ)
      → Checking storage k e c
      → n.storage ≡ storage
      → k < storage
      → Checking storage (k + 1) (if n.prbs_error then suc e else e) (control_next m c n)
  unfolding control_next
  step-Checking c n k e h s l = ground arith

  step_last :
      (c : Control) (n : Input) (k e : ℕ)
      → Checking storage k e c
      → n.storage ≡ storage
      → k ≡ storage
      → ((control_next m c n).fsm ≡ idle)
        × ((control_next m c n).errors ≡ u32 (if n.prbs_error then suc e else e))
  unfolding control_next
  step_last c n k e h s z = ground arith

  abbrev Holds : Input → Type 0
  Holds n = n.storage ≡ storage

  clock-Checking :
      (ns : List Input) (c : Control) (k e : ℕ)
      → Checking storage k e c
      → All Holds ns
      → k + length ns ≤ suc storage
      → k ≤ storage
      → ((clock (control_next m) c ns).errors ≡ u32 (e + count_if (λ n. n.prbs_error) ns))
        × ((clock (control_next m) c ns).fsm
            ≡ (if k + length ns == suc storage then idle else check))
  clock-Checking [] c k e h a l b = ground arith
  clock-Checking (n ∷ []) c k e h (a, _) l b =
      ground (arith, step-Checking c n k e h a, step_last c n k e h a)
  clock-Checking (n ∷ n' ∷ ns) c k e h (a, al) l b = ground (
    arith,
    clock-Checking (n' ∷ ns) (control_next m c n) (k + 1) (if n.prbs_error then suc e else e)
        (step-Checking c n k e h a (omega arith)) al (omega arith) (omega arith),
  )

  -- A start in the idle state, and then up to `storage` + 1 cycles with the same `storage` of 32
  -- bits: `errors` is the number of cycles with an error among them, modulo 2 ^ 32, and the checker
  -- is idle again exactly when all `storage` + 1 cycles have passed.
  pub prbs_run :
      (c : Control) (n : Input) (ns : List Input)
      → c.fsm ≡ idle
      → n.start_re ≡ true
      → All Holds ns
      → length ns ≤ suc storage
      → ((clock (control_next m) c (n ∷ ns)).errors ≡ u32 (count_if (λ n. n.prbs_error) ns))
        × ((clock (control_next m) c (n ∷ ns)).fsm
            ≡ (if length ns == suc storage then idle else check))
  prbs_run c n ns h s a l =
      ground (arith, clock-Checking ns (control_next m c n) 0 0 (start-Checking c n h s) a)
