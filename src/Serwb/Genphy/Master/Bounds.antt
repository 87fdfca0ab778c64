-- ===== src/Serwb/Genphy/Master/Bounds.antt =====
-- The shift register of the master of liteiclink/serwb/genphy.py against the pulses that it sends.
use liteiclink.Base.{ℕ, ◌+◌, ◌≤◌, List, [], ◌∷◌, ◌≡◌, refl, arith, if◌then◌else◌, clock}
use liteiclink.Serwb.Genphy.Master.{Master, Input, idle, reset, out, next}

-- The pulses on `serdes.rx.shift` over the cycles.
abbrev pub pulses : Master → List Input → ℕ
pulses s [] = 0
pulses s (n ∷ ns) = (if (out s n).rx_shift then 1 else 0) + pulses (next s n) ns

step-pulses :
    (s : Master) (n : Input)
    → s.shift ≤ 39
    → ((s.fsm ≡ idle) → s.shift ≡ 0)
    → ((next s n).shift ≡ s.shift + (if (out s n).rx_shift then 1 else 0))
      × ((next s n).shift ≤ 39)
      × (((next s n).fsm ≡ idle) → (next s n).shift ≡ 0)
unfolding next out
step-pulses s n h i = ground arith

clock-pulses :
    (s : Master) (ns : List Input)
    → s.shift ≤ 39
    → ((s.fsm ≡ idle) → s.shift ≡ 0)
    → ((clock next s ns).shift ≡ s.shift + pulses s ns) × ((clock next s ns).shift ≤ 39)
clock-pulses s [] h i = (omega arith, h)
clock-pulses s (n ∷ ns) h i =
    let (e, h', i') = step-pulses s n h i in
    let (e', h'') = clock-pulses (next s n) ns h' i' in (omega arith, h'')

-- After any cycles from reset, `shift` is the number of pulses that the receiver's aligner was
-- given, and it never passes 39: the 6-bit register does not wrap.
pub master_shift_counts :
    (ns : List Input)
    → ((clock next reset ns).shift ≡ pulses reset ns) × ((clock next reset ns).shift ≤ 39)
master_shift_counts ns =
    let (e, h) = clock-pulses reset ns (omega arith) (λ _. refl) in (omega arith, h)
