-- ===== src/Serwb/Genphy/Master/Align.antt =====
-- What the master of liteiclink/serwb/genphy.py ends in, with its timer, over a line that is stable.
use liteiclink.Base.{
  ℕ, zero, suc, ◌+◌, ◌<◌, Bool, true, false, Option, none, some, ◌≡◌, arith, WaitTimer, Eventually,
  waits, Goes, once, ◌>>>◌, Bool-cases, inl, inr,
}
use liteiclink.Serwb.Genphy.Search.{first_from}
use liteiclink.Serwb.Genphy.Master.{
  Fsm, Master, Input, reset_slave, send_pattern, wait_stable, check_pattern, inc_shift, ready,
  error, out, next, reset,
}

-- The registers that the search ends with: ready at the shift that was found, or in error.
abbrev pub outcome : Option ℕ → Master
outcome (some k) = record { fsm = ready; shift = k }
outcome none = record { fsm = error; shift = 39 }

module _ (T : WaitTimer) (comma_at : ℕ → Bool) where
  pub record Timed : Type 0 where
    pub core : Master
    pub timer : T.State

  -- The line is not idle, and the receiver sees commas exactly at the shifts of `comma_at`.
  abbrev line : Timed → Input
  line s = record { done = T.done s.timer; rx_idle = false; rx_comma = comma_at s.core.shift }

  unfoldable pub timed_next : Timed → Timed
  timed_next s = record {
    core = next s.core (line s);
    timer = T.tick (out s.core (line s)).timer_wait s.timer;
  }

  abbrev In : Fsm → ℕ → Timed → Type 0
  In f k s = s.core ≡ record { fsm = f; shift = k }

  abbrev Expired : Fsm → ℕ → Timed → Type 0
  Expired f k s = In f k s × (T.done s.timer ≡ true)

  -- In each of these states the FSM stays until the timer is done.
  data Waiting (k : ℕ) : Fsm → Type 0 where
    in_reset_slave : Waiting k reset_slave
    in_send_pattern : Waiting k send_pattern
    in_wait_stable : Waiting k wait_stable
    in_check_pattern : comma_at k ≡ true → Waiting k check_pattern

  keeps :
      {f : Fsm} (k : ℕ)
      → Waiting k f
      → (s : Timed) → In f k s
      → T.done s.timer ≡ false
      → In f k (timed_next s) × ((timed_next s).timer ≡ T.tick true s.timer)
  unfolding timed_next next out
  keeps k in_reset_slave s h b = ground arith
  keeps k in_send_pattern s h b = ground arith
  keeps k in_wait_stable s h b = ground arith
  keeps k (in_check_pattern c) s h b = ground arith

  expires :
      {f : Fsm} (k : ℕ)
      → Waiting k f
      → (s : Timed) → In f k s
      → Eventually timed_next s (Expired f k)
  expires {f} k w = waits T timed_next (λ t. t.timer) (In f k) (keeps k w)

  abbrev Leads : (Timed → Type 0) → (Timed → Type 0) → Type 0
  Leads P Q = Goes timed_next P Q

  check-ready : (k : ℕ) → comma_at k ≡ true → Leads (In check_pattern k) (In ready k)
  unfolding timed_next next out
  check-ready k c = expires k (in_check_pattern c) >>> once (λ s p. ground arith)

  check-inc : (k : ℕ) → comma_at k ≡ false → Leads (In check_pattern k) (In inc_shift k)
  unfolding timed_next next out
  check-inc k c = once (λ s p. ground arith)

  inc-error : Leads (In inc_shift 39) (In error 39)
  unfolding timed_next next out
  inc-error = once (λ s p. ground arith)

  inc-check : (k : ℕ) → k < 39 → Leads (In inc_shift k) (In check_pattern (suc k))
  unfolding timed_next next out
  inc-check k h =
      once (λ s p. ground arith) >>> expires (suc k) in_wait_stable >>> once (λ s p. ground arith)

  start-check : Leads (λ s. s.core ≡ reset) (In check_pattern 0)
  unfolding timed_next next out
  start-check =
      once (λ s p. ground arith)
      >>> expires 0 in_reset_slave
      >>> once (λ s p. ground arith)
      >>> expires 0 in_send_pattern
      >>> once (λ s p. ground arith)

  abbrev Ends : ℕ → ℕ → Timed → Type 0
  Ends n k s = s.core ≡ outcome (first_from comma_at n k)

  searches : (n k : ℕ) → k + suc n ≡ 40 → Leads (In check_pattern k) (Ends (suc n) k)
  searches zero k e = elim (Bool-cases (comma_at k)) [
    | inl c ↦ λ s p. rw c (check-ready k c s p)
    | inr c ↦
        let last : k ≡ 39 = omega arith in λ s p. rw c ((check-inc k c >>> (rw last inc-error)) s p)
  ]
  searches (suc n) k e = elim (Bool-cases (comma_at k)) [
    | inl c ↦ λ s p. rw c (check-ready k c s p)
    | inr c ↦ λ s p.
        rw c
          ((check-inc k c >>> inc-check k (omega arith) >>> searches n (suc k) (omega arith)) s p)
  ]

  -- From reset, over a line that is not idle and on which commas are seen at the same shifts for
  -- as long as the search goes on, the master ends: ready at the first of the shifts 0 to 39 at
  -- which commas are seen, or in error with the shift at 39 if they are seen at none.
  pub master_aligns : (s : Timed) → s.core ≡ reset → Eventually timed_next s (Ends 40 0)
  master_aligns = start-check >>> searches 39 0 (omega arith)
