-- ===== src/Examples/Benches.antt =====
-- Runs of the circuits of bench/serwb/sim.py.
use liteiclink.Base.{ℕ, true, false, List, [], ◌∷◌, ◌≡◌, ◌↔◌, arith, replicate}
use liteiclink.Bench.Sim.{
  CheckerIn, checker_next, checker_takes, checker_reset, alt_reset, alt_next, alt_act, alt_access,
}
use liteiclink.Bench.Sim.Counters.{reports, taken, count_from, checker_exact}
use liteiclink.Bench.Sim.Stress.{accesses, alt_alternates}

abbrev arrival : ℕ → CheckerIn
arrival w = record { link_ready = true; valid = true; word = w }

-- The first word comes before the checker is ready.
abbrev arrivals : List CheckerIn
arrivals = arrival 7 ∷ arrival 0 ∷ arrival 1 ∷ arrival 3 ∷ []

checker_exact_example :
    (reports checker_reset arrivals ≡ false) ↔ (taken checker_reset arrivals ≡ count_from 0 3)
unfolding checker_next checker_takes
checker_exact_example =
    checker_exact checker_reset arrivals (omega arith)
      (omega arith, (omega arith, (omega arith, (omega arith, tt))))

alt_alternates_example :
    accesses alt_reset (replicate 24 true)
    ≡ true ∷ true ∷ true ∷ true ∷ false ∷ false ∷ false ∷ false ∷ true ∷ true ∷ true ∷ []
unfolding alt_next alt_act alt_access
alt_alternates_example = alt_alternates (replicate 24 true)
