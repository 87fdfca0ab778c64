-- ===== src/Bench/Sim/Delays.antt =====
-- What the latency measurement of bench/serwb/sim.py displays.
use liteiclink.Base.{
  ℕ, ◌+◌, ◌^◌, ◌<◌, Bool, true, false, List, [], ◌∷◌, ◌++◌, ◌≡◌, arith, All, length, if◌then◌else◌,
}
use liteiclink.Bench.Sim.{
  LatencyFsm, Latency, LatencyIn, idle, m2s_measure, ack_measure, s2m_measure, latency_act,
  latency_next,
}

-- The counts that are displayed in a run.
abbrev pub displayed : Latency → List LatencyIn → List ℕ
displayed s [] = []
displayed s (n ∷ ns) =
    let rest = displayed (latency_next s n) ns in
    if (latency_act s.fsm s n).0 then s.count ∷ rest else rest

-- The signal that ends a measurement, and the state after it.
abbrev pub ends : LatencyFsm → LatencyIn → Bool
ends idle n = false
ends m2s_measure n = n.slave_request
ends ack_measure n = n.slave_ack
ends s2m_measure n = n.master_ack

abbrev pub after : LatencyFsm → LatencyFsm
after idle = idle
after m2s_measure = ack_measure
after ack_measure = s2m_measure
after s2m_measure = idle

abbrev pub IsQuiet : LatencyFsm → LatencyIn → Type 0
IsQuiet f n = ends f n ≡ false

-- A measurement of `length ns` cycles displays bs many, and starts the next one.
measures :
    (f : LatencyFsm) (c : ℕ) (ns : List LatencyIn) (n : LatencyIn) (rest : List LatencyIn)
    → All (IsQuiet f) ns
    → ends f n ≡ true
    → c + length ns < 2 ^ 32
    → displayed (record { fsm = f; count = c }) (ns ++ (n ∷ rest))
      ≡ (c + length ns) ∷ displayed (record { fsm = after f; count = 0 }) rest
unfolding latency_next latency_act
measures idle c ns n rest a e h = absurd cc
measures m2s_measure c [] n rest a e h = ground arith
measures ack_measure c [] n rest a e h = ground arith
measures s2m_measure c [] n rest a e h = ground arith
measures m2s_measure c (m ∷ ns) n rest (q, a) e h =
    ground (arith, measures m2s_measure (c + 1) ns n rest a e)
measures ack_measure c (m ∷ ns) n rest (q, a) e h =
    ground (arith, measures ack_measure (c + 1) ns n rest a e)
measures s2m_measure c (m ∷ ns) n rest (q, a) e h =
    ground (arith, measures s2m_measure (c + 1) ns n rest a e)

-- The latencies that are displayed for an access are the numbers of the cycles between the request at
-- the master and at the slave, from there to the slave's acknowledge, and from there to the master's.
pub latencies_displayed :
    (s : Latency) (request asked acked done : LatencyIn) (ms bs ss rest : List LatencyIn)
    → s.fsm ≡ idle
    → request.master_request ≡ true
    → All (IsQuiet m2s_measure) ms
    → asked.slave_request ≡ true
    → All (IsQuiet ack_measure) bs
    → acked.slave_ack ≡ true
    → All (IsQuiet s2m_measure) ss
    → done.master_ack ≡ true
    → length ms < 2 ^ 32
    → length bs < 2 ^ 32
    → length ss < 2 ^ 32
    → displayed s (request ∷ (ms ++ (asked ∷ (bs ++ (acked ∷ (ss ++ (done ∷ rest)))))))
      ≡ length ms ∷ length bs ∷ length ss ∷ displayed (record { fsm = idle; count = 0 }) rest
unfolding latency_next latency_act
latencies_displayed s request asked acked done ms bs ss rest i r q a u b v d l m n = ground (
  arith,
  measures m2s_measure 0 ms asked (bs ++ (acked ∷ (ss ++ (done ∷ rest)))) q a (omega arith),
  measures ack_measure 0 bs acked (ss ++ (done ∷ rest)) u b (omega arith),
  measures s2m_measure 0 ss done rest v d (omega arith),
)
