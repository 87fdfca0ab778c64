-- ===== src/Serwb/Genphy/Handshake/SlaveSearch.antt =====
-- The third part of the handshake of liteiclink/serwb/genphy.py: the slave searches for the commas of
-- the master, which waits for the slave's answer.
use liteiclink.Base.{
  ℕ, zero, suc, ◌+◌, ◌<◌, true, false, ◌≡◌, ◌≤◌, inl, inr, arith, Bool-cases, once, already, ◌>>>◌,
  runs_out,
}
use liteiclink.Serwb.Genphy.Master
use liteiclink.Serwb.Genphy.Slave
use liteiclink.Serwb.Genphy.Handshake.{Line, Setup, Ends, comma, slave_in, ends_next}
use liteiclink.Serwb.Genphy.Handshake.Recall.{Leads, s_left, SlaveIn, Recalled, recalls}
use liteiclink.Serwb.Genphy.Handshake.Settle.{Pattern-step, Settles, Search, Fresh, settle}

-- A receiver that gets aligned by some shift from 0 to 39 on, whatever the line is doing.
abbrev pub Finds : Line → Type 0
Finds l = (t : l.State) → (m : ℕ) × (m ≤ 39) × (l.aligned t m ≡ true)

module _ (e : Setup) where
  -- In a state of the FSM, at a shift, and aligned after `m` shifts more.
  abbrev In : Slave.Fsm → ℕ → ℕ → Ends e → Type 0
  In f k m s = Search e s × SlaveIn e f k s × (e.down.aligned s.down m ≡ true)

  -- The search goes on as long as the slave sends idle.
  Search-step :
      (s : Ends e)
      → Search e s
      → let o = Slave.out s.slave (slave_in e s) in
        o.tx_idle ≡ true
        → Search e (ends_next e s)
          × ((ends_next e s).down ≡ e.down.step comma false false o.rx_shift s.down)
          × ((ends_next e s).slave ≡ Slave.next s.slave (slave_in e s))
          × ((ends_next e s).slave_timer ≡ e.timer.tick o.timer_wait s.slave_timer)
  unfolding ends_next
  Search-step s (p, c) t =
      let o = Slave.out s.slave (slave_in e s) in
      ground (
        arith,
        Pattern-step e s p t,
        e.down.idle_over s.down,
        e.down.lingering-comma o.rx_shift s.down,
      )

  abbrev Seen : Slave.Fsm → ℕ → ℕ → Ends e → Type 0
  Seen f k m s = In f k m s × (e.down.settled comma s.down ≡ 0)

  leaves_idle :
      (m : ℕ) → Leads e (In Slave.idle 0 m) (λ s. In Slave.wait_stable 0 m s × Settles e s)
  unfolding Slave.next Slave.out
  leaves_idle m =
      runs_out (s_left e) (λ s p g. ground (
        arith,
        Search-step s p.0,
        e.timer.done-remaining s.slave_timer,
        e.timer.remaining-wait s.slave_timer,
        e.down.aligned-step comma s.down m,
      ))
      >>> once (λ s p. ground (
        arith,
        e.room,
        Search-step s p.0.0,
        e.timer.done-remaining s.slave_timer,
        e.timer.remaining-release s.slave_timer,
        e.down.settled-le comma (ends_next e s).down,
        e.down.aligned-step comma s.down m,
      ))

  stabilises :
      (k m : ℕ)
      → Leads e (λ s. In Slave.wait_stable k m s × Settles e s) (Seen Slave.check_pattern k m)
  unfolding Slave.next Slave.out
  stabilises k m =
      runs_out (s_left e) (λ s p g. ground (
        arith,
        Search-step s p.0.0,
        e.timer.done-remaining s.slave_timer,
        e.timer.remaining-wait s.slave_timer,
        e.down.settled-step comma s.down,
        e.down.aligned-step comma s.down m,
      ))
      >>> once (λ s p. ground (
        arith,
        Search-step s p.0.0.0,
        e.timer.done-remaining s.slave_timer,
        e.down.settled-step comma s.down,
        e.down.aligned-step comma s.down m,
      ))

  -- The slave has found a shift at which it sees commas, and sends its own.
  abbrev pub FoundAt : ℕ → Ends e → Type 0
  FoundAt k s = Seen Slave.send_pattern k 0 s

  finds : (k : ℕ) → Leads e (Seen Slave.check_pattern k 0) (FoundAt k)
  unfolding Slave.next Slave.out
  finds k =
      runs_out (s_left e) (λ s p g. ground (
        arith,
        Search-step s p.0.0,
        e.timer.done-remaining s.slave_timer,
        e.timer.remaining-wait s.slave_timer,
        e.down.settled-step comma s.down,
        e.down.comma_seen s.down p.1,
        e.down.aligned-step comma s.down 0,
      ))
      >>> once (λ s p. ground (
        arith,
        Search-step s p.0.0.0,
        e.timer.done-remaining s.slave_timer,
        e.down.settled-step comma s.down,
        e.down.comma_seen s.down p.0.1,
        e.down.aligned-step comma s.down 0,
      ))

  -- Where it is not aligned, it shifts.
  shifts :
      (k m : ℕ)
      → k < 39
      → Leads e
          (λ s. Seen Slave.check_pattern k (suc m) s × (e.down.aligned s.down 0 ≡ false))
          (λ s. In Slave.wait_stable (suc k) m s × Settles e s)
  unfolding Slave.next Slave.out
  shifts k m h =
      once {Q = In Slave.inc_shift k (suc m)} (λ s p. ground (
        arith,
        Search-step s p.0.0.0,
        e.down.comma_seen s.down p.0.1,
        e.down.aligned-step comma s.down (suc m),
      ))
      >>> once (λ s p. ground (
        arith,
        e.room,
        Search-step s p.0,
        e.timer.remaining-release s.slave_timer,
        e.down.settled-le comma (ends_next e s).down,
        e.down.aligned-shift comma s.down m,
      ))

  abbrev pub Found : Ends e → Type 0
  Found s = (k : ℕ) × FoundAt k s

  keep_shift : (k : ℕ) → Leads e (FoundAt k) Found
  keep_shift k = already (λ s p. (k, p))

  searches : (m k : ℕ) → k + m ≤ 39 → Leads e (Seen Slave.check_pattern k m) Found
  searches zero k b s p = (finds k >>> keep_shift k) s p
  searches (suc m) k b s p = elim (Bool-cases (e.down.aligned s.down 0)) [
    | inl c ↦ (finds k >>> keep_shift k) s ((p.0.0, p.0.1, c), p.1)
    | inr c ↦
        (shifts k m (omega arith) >>> stabilises (suc k) m >>> searches m (suc k) (omega arith)) s
          (p, c)
  ]

  early : Leads e (Recalled e) (λ s. Search e s × Fresh e (Settles e) s)
  early = already (λ s p. ((p.0, p.2), inl p.1)) >>> settle e

  -- The master and the slave end where the slave has found its shift.
  pub slave_finds : Finds e.down → Leads e (λ s. s.master ≡ Master.reset) Found
  slave_finds h = recalls e >>> early >>> fresh
    where
      fresh : Leads e (λ s. Search e s × Fresh e (Settles e) s) Found
      fresh s (p, inl i) =
          let (m, b, a) = h s.down in
          (leaves_idle m >>> stabilises 0 m >>> searches m 0 (omega (arith, b))) s (p, i, a)
      fresh s (p, inr (w, c)) =
          let (m, b, a) = h s.down in
          (stabilises 0 m >>> searches m 0 (omega (arith, b))) s ((p, w, a), c)
