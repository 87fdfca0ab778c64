-- ===== src/Examples/Handshakes.antt =====
-- The handshake of liteiclink/serwb/genphy.py over lines that keep the last symbol and a phase, and the detection
-- of an idle line.
use liteiclink.Base.{
  ℕ, ap, ◌+◌, ◌%◌, ◌≤◌, ◌==◌, Bool, true, false, ◌≡◌, refl, arith, exact_countdown, step, List, ◌∷◌,
  All, clock, replicate, suc, zero, ◌&&◌, if◌then◌else◌,
}
use liteiclink.Serwb.Datapath.{RxIn}
use liteiclink.Serwb.Datapath.Idle.{Detector, Brings, sees_idle, detector_next, sees_idle_lem}
use liteiclink.Serwb.Genphy.Master
use liteiclink.Serwb.Genphy.Slave
use liteiclink.Serwb.Genphy.Handshake.{Symbol, idle, comma, words, Line, Setup, Ends}

abbrev same : Symbol → Symbol → Bool
same idle idle = true
same comma comma = true
same words words = true
same _ _ = false

abbrev due : Symbol → Symbol → ℕ
due x s = if same x s then 0 else 1

abbrev rest : Symbol → ℕ
rest idle = 1
rest _ = 0

due-same : (x : Symbol) → due x x ≡ 0
due-same idle = refl
due-same comma = refl
due-same words = refl

due-le : (x s : Symbol) → due x s ≤ 1
due-le x s = ground arith

rest-le : (s : Symbol) → rest s ≤ 1
rest-le s = ground arith

seen : (s : Symbol) → due idle s ≡ 0 → same idle s ≡ true
seen s z = ground arith

over : (s : Symbol) → rest s ≡ 0 → same idle s ≡ false
over s z = ground arith

-- One phase in each word of 40 bits.
abbrev each_word : ℕ → Bool
each_word k = k % 40 == 3

abbrev nowhere : ℕ → Bool
nowhere k = false

next-phase : (at : ℕ → Bool) (p k : ℕ) → at (suc p + k) ≡ at (p + suc k)
next-phase at p k = let e : suc p + k ≡ p + suc k = omega arith in ap at e

comma-seen :
    (at : ℕ → Bool) (s : Symbol) (p : ℕ) → due comma s ≡ 0 → (same comma s && at p) ≡ at (p + 0)
comma-seen at s p z = let e : p ≡ p + 0 = omega arith in ground (arith, ap at e)

comma-over : (at : ℕ → Bool) (s : Symbol) (p : ℕ) → due words s ≡ 0 → (same comma s && at p) ≡ false
comma-over at s p z = ground arith

-- The last symbol, and the phase of the receiver: a shift moves it on by one bit, and a reset of either
-- end moves it somewhere else.
record Kept : Type 0 where
  symbol : Symbol
  phase : ℕ

abbrev phase_after : (tx_reset rx_reset shift : Bool) → ℕ → ℕ
phase_after t r h k = if t then 17 else if r then 0 else if h then suc k else k

-- A receiver that is aligned at the phases of `at`.
abbrev kept : (ℕ → Bool) → Line
kept at = record {
  State = Kept;
  step = λ x t r h s. record { symbol = x; phase = phase_after t r h s.phase };
  sees_idle = λ s. same idle s.symbol;
  sees_comma = λ s. same comma s.symbol && at s.phase;
  aligned = λ s k. at (s.phase + k);
  aligned-step = λ x s k. refl;
  aligned-shift = λ x s k. next-phase at s.phase k;
  settled = λ x s. due x s.symbol;
  lingering = λ s. rest s.symbol;
  latency = 1;
  settled-le = λ x s. due-le x s.symbol;
  lingering-le = λ s. rest-le s.symbol;
  settled-step = λ x s. omega (arith, due-same x);
  settled-idle = λ t s. omega arith;
  settled-shift = λ s. omega arith;
  lingering-falls = λ r s. omega arith;
  lingering-comma = λ h s. omega arith;
  lingering-words = λ h s. omega arith;
  idle_seen = λ s z. seen s.symbol z;
  idle_over = λ s z. over s.symbol z;
  comma_seen = λ s z. comma-seen at s.symbol s.phase z;
  comma_over = λ s z a. comma-over at s.symbol s.phase z;
}

abbrev setup : (ℕ → Bool) → Setup
setup at = record {
  timeout = 20;
  timer = exact_countdown 20;
  down = kept each_word;
  up = kept at;
  room = omega arith;
}

-- The master starts while the slave of an earlier link is ready and both lines carry words.
abbrev begun : (at : ℕ → Bool) → Ends (setup at)
begun at = record {
  master = Master.reset;
  master_timer = 20;
  slave = record { fsm = Slave.ready; shift = 5 };
  slave_timer = 0;
  slave_reset = false;
  down = record { symbol = words; phase = 11 };
  up = record { symbol = words; phase = 30 };
}

abbrev ended : (at : ℕ → Bool) → Ends (setup at)
ended at = record {
  master = record { fsm = Master.ready; shift = 2 };
  master_timer = 20;
  slave = record { fsm = Slave.ready; shift = 3 };
  slave_timer = 20;
  slave_reset = false;
  down = record { symbol = words; phase = 3 };
  up = record { symbol = words; phase = 43 };
}

abbrev zero_word : RxIn 188 60
zero_word = record { word_valid = true; word = 0; valid = false; k = 0; d = 0; ready = true }

abbrev detector : Detector 188 60 (exact_countdown 32)
detector = record { flags = record { idle_wait = false; comma = true }; timer = 7 }

abbrev zero_words : List (RxIn 188 60)
zero_words = replicate 32 zero_word

zero_words-All : (n : ℕ) → All (Brings 188 60 (exact_countdown 32) true) (replicate n zero_word)
zero_words-All zero = tt
zero_words-All (suc n) = (refl, zero_words-All n)

sees_idle_lem_example :
    sees_idle 188 60
      (exact_countdown 32)
      (clock (detector_next 188 60 (exact_countdown 32)) detector (zero_word ∷ zero_words))
    ≡ true
sees_idle_lem_example =
    sees_idle_lem 188 60 (exact_countdown 32) true detector zero_word zero_words (omega arith) refl
      (refl, zero_words-All 32) (omega arith)
