-- ===== src/Serwb/Packet/Timeout.antt =====
-- The depacketizer of liteiclink/serwb/packet.py with its timer, `WaitTimer(clk_freq * timeout)`.
use liteiclink.Base.{
  ℕ, ◌+◌, ◌≤◌, Bool, true, false, List, ◌≡◌, ◌⊎◌, arith, length, deadline, Within, WaitTimer,
}
use liteiclink.Serwb.Packet.{
  Depacketizer, DepacketizerIn, depacketizer_out, depacketizer_next, wait_preamble, pass_words,
}

-- The inputs of one cycle, the timer apart.
pub record Input : Type 0 where
  pub valid : Bool
  pub word : ℕ
  pub ready : Bool

module _ (T : WaitTimer) where
  pub record Timed : Type 0 where
    pub core : Depacketizer
    pub timer : T.State

  abbrev pub with_done : Timed → Input → DepacketizerIn
  with_done s n = record { valid = n.valid; word = n.word; ready = n.ready; done = T.done s.timer }

  -- One cycle of the circuit and of the timer that it drives.
  unfoldable pub timed_next : Timed → Input → Timed
  timed_next s n = record {
    core = depacketizer_next s.core (with_done s n);
    timer = T.tick (depacketizer_out s.core (with_done s n)).timer_wait s.timer;
  }

  pass_words-next :
      (s : Timed) (n : Input)
      → s.core.fsm ≡ pass_words
      → ((timed_next s n).core.fsm ≡ wait_preamble)
        ⊎ (((timed_next s n).core.fsm ≡ pass_words)
            × (T.done s.timer ≡ false)
            × ((timed_next s n).timer ≡ T.tick true s.timer))
  unfolding timed_next depacketizer_next depacketizer_out
  pass_words-next s n h = ground arith

  -- Where it passes words on, whatever arrives or does not arrive and however the reader stalls, the
  -- depacketizer is back at its search for a preamble within the cycles that its timer still
  -- needs and one more.
  pub timeout-Within :
      (s : Timed) (ns : List Input)
      → s.core.fsm ≡ pass_words
      → T.remaining s.timer + 1 ≤ length ns
      → Within timed_next s ns (λ t. t.core.fsm ≡ wait_preamble)
  timeout-Within =
      deadline T timed_next (λ s. s.timer) (λ s. s.core.fsm ≡ pass_words)
        (λ s. s.core.fsm ≡ wait_preamble) pass_words-next
