-- ===== src/Serwb/Genphy/Handshake/Recall.antt =====
-- The first part of the handshake of liteiclink/serwb/genphy.py: the idle line of the master resets
-- the slave, whatever the slave was doing, and the master sees the slave's idle line.
use liteiclink.Base.{
  ℕ, ◌+◌, ◌-◌, ◌*◌, ◌≤◌, true, false, ◌≡◌, ◌⊎◌, inl, inr, arith, Bool-cases, Goes, once, already,
  ◌>>>◌, descends, runs_out,
}
use liteiclink.Serwb.Genphy.Master
use liteiclink.Serwb.Genphy.Slave
use liteiclink.Serwb.Genphy.Handshake.{Setup, Ends, idle, slave_in, ends_next}

module _ (e : Setup) where
  abbrev pub Leads : (Ends e → Type 0) → (Ends e → Type 0) → Type 0
  Leads P Q = Goes (ends_next e) P Q

  abbrev pub m_left : Ends e → ℕ
  m_left s = e.timer.remaining s.master_timer

  abbrev pub s_left : Ends e → ℕ
  s_left s = e.timer.remaining s.slave_timer

  abbrev pub MasterIn : Master.Fsm → ℕ → Ends e → Type 0
  MasterIn f k s = s.master ≡ record { fsm = f; shift = k }

  abbrev pub SlaveIn : Slave.Fsm → ℕ → Ends e → Type 0
  SlaveIn f k s = s.slave ≡ record { fsm = f; shift = k }

  -- In INC-SHIFT the slave's shift holds up its receiver for a cycle.
  abbrev delay : Slave.Fsm → ℕ
  delay Slave.inc_shift = 1
  delay _ = 0

  -- The master sends idle for long enough, and the slave has not seen it yet.
  abbrev Unseen : Ends e → Type 0
  Unseen s =
      MasterIn Master.reset_slave 0 s
      × (s.slave_reset ≡ false)
      × (2 * e.down.settled idle s.down + delay s.slave.fsm + e.up.latency + 4 ≤ m_left s)

  abbrev Called : Ends e → Type 0
  Called s =
      MasterIn Master.reset_slave 0 s × (s.slave_reset ≡ true) × (e.up.latency + 2 ≤ m_left s)

  start : Leads (λ s. s.master ≡ Master.reset) (λ s. Unseen s ⊎ Called s)
  unfolding ends_next Master.next Master.out
  start = once (λ s h. elim (Bool-cases (e.down.sees_idle s.down)) [
    | inl i ↦ inr (ground (arith, e.room, e.timer.remaining-release s.master_timer))
    | inr i ↦ inl (
        ground (
          arith,
          e.room,
          e.timer.remaining-release s.master_timer,
          e.down.settled-le idle (ends_next e s).down,
        ))
  ])

  -- While the master calls, it waits and sends idle.
  pub calls :
      (s : Ends e)
      → MasterIn Master.reset_slave 0 s
      → 1 ≤ m_left s
      → MasterIn Master.reset_slave 0 (ends_next e s)
        × (m_left (ends_next e s) ≡ m_left s - 1)
        × ((ends_next e s).down
            ≡ e.down.step idle false s.slave_reset
                (Slave.out s.slave (slave_in e s)).rx_shift
                s.down)
  unfolding ends_next Master.next Master.out
  calls s m g =
      ground (arith, e.timer.done-remaining s.master_timer, e.timer.remaining-wait s.master_timer)

  -- The detection of idle gets nearer, also over the slave's shifts.
  nearer :
      (s : Ends e)
      → e.down.sees_idle s.down ≡ false
      → let o = Slave.out s.slave (slave_in e s) in
        2 * e.down.settled idle (e.down.step idle false false o.rx_shift s.down)
          + delay (Slave.next s.slave (slave_in e s)).fsm
          + 1
        ≤ 2 * e.down.settled idle s.down + delay s.slave.fsm
  unfolding Slave.next Slave.out
  nearer s i =
      ground (
        arith,
        e.down.idle_seen s.down,
        e.down.settled-step idle s.down,
        e.down.settled-shift s.down,
      )

  Unseen-step : (s : Ends e) → Unseen s → e.down.sees_idle s.down ≡ false → Unseen (ends_next e s)
  unfolding ends_next
  Unseen-step s (m, r, g) i =
      let (m', left, sent) = calls s m (omega arith) in
      (m', i, rw left (rw sent (ground (arith, nearer s i))))

  call : Leads Unseen Called
  unfolding ends_next
  call = descends m_left (λ s p. elim (Bool-cases (e.down.sees_idle s.down)) [
    | inl i ↦ inl (ground (arith, calls s p.0))
    | inr i ↦ inr (Unseen-step s p i, ground (arith, calls s p.0))
  ])

  -- The slave is reset again each time it sees idle, before it stops waiting.
  abbrev Held : Ends e → Type 0
  Held s =
      SlaveIn Slave.idle 0 s
      × ((s.slave_reset ≡ true)
          ⊎ ((s.slave_reset ≡ false) × (e.down.settled idle s.down + 1 ≤ s_left s)))

  abbrev Answering : Ends e → Type 0
  Answering s = MasterIn Master.reset_slave 0 s × Held s × (e.up.settled idle s.up ≤ m_left s)

  -- The slave waits in IDLE, and the master sees its idle line and sends commas.
  abbrev pub Recalled : Ends e → Type 0
  Recalled s =
      MasterIn Master.send_pattern 0 s × SlaveIn Slave.idle 0 s × (e.up.settled idle s.up ≡ 0)

  reset-Held : (s : Ends e) → s.slave_reset ≡ true → Held (ends_next e s)
  unfolding ends_next
  reset-Held s r = elim (Bool-cases (e.down.sees_idle s.down)) [
    | inl i ↦ (ground arith, inl i)
    | inr i ↦ (
      ground arith,
      inr (
          ground
            (arith, e.room, e.timer.remaining-reset, e.down.settled-le idle (ends_next e s).down)),
    )
  ]

  keep-Held :
      (s : Ends e) → MasterIn Master.reset_slave 0 s → 1 ≤ m_left s → Held s → Held (ends_next e s)
  unfolding ends_next Slave.next Slave.out
  keep-Held s m g (h, inl r) = reset-Held s r
  keep-Held s m g (h, inr (r, near)) = elim (Bool-cases (e.down.sees_idle s.down)) [
    | inl i ↦ (ground (arith, e.timer.done-remaining s.slave_timer), inl i)
    | inr i ↦ (
      ground (arith, e.timer.done-remaining s.slave_timer),
      inr (
          ground (
            arith,
            calls s m g,
            e.timer.done-remaining s.slave_timer,
            e.timer.remaining-wait s.slave_timer,
            e.down.settled-step idle s.down,
            e.down.idle_seen s.down,
          )),
    )
  ]

  -- What the slave sends while it waits.
  answers :
      (s : Ends e)
      → MasterIn Master.reset_slave 0 s
      → Held s
      → (ends_next e s).up ≡ e.up.step idle s.slave_reset false false s.up
  unfolding ends_next Master.out Slave.out
  answers s m h = ground (arith, h.0)

  answer : Leads Called Answering
  unfolding ends_next
  answer = once (λ s p. (
    ground (arith, calls s p.0),
    reset-Held s p.1,
    ground (arith, calls s p.0, e.up.settled-le idle (ends_next e s).up),
  ))

  stays-idle : (s : Ends e) → Held s → SlaveIn Slave.idle 0 (ends_next e s)
  unfolding ends_next Slave.next
  stays-idle s (h, inl r) = ground arith
  stays-idle s (h, inr (r, near)) = ground (arith, e.timer.done-remaining s.slave_timer)

  sends-pattern :
      (s : Ends e)
      → MasterIn Master.reset_slave 0 s
      → m_left s ≡ 0
      → MasterIn Master.send_pattern 0 (ends_next e s)
  unfolding ends_next Master.next
  sends-pattern s m z = ground (arith, e.timer.done-remaining s.master_timer)

  recall : Leads Answering Recalled
  recall =
      runs_out m_left (λ s p g. (
        (
          (calls s p.0 g).0,
          keep-Held s p.0 g p.1,
          ground (arith, calls s p.0, answers s p.0 p.1, e.up.settled-idle s.slave_reset s.up),
        ),
        ground (arith, calls s p.0),
      ))
      >>> once (λ s q.
        let (p, z) = q in
        (
          sends-pattern s p.0 z,
          stays-idle s p.1,
          ground (arith, answers s p.0 p.1, e.up.settled-idle s.slave_reset s.up),
        ))

  pub recalls : Leads (λ s. s.master ≡ Master.reset) Recalled
  recalls = start >>> either >>> answer >>> recall
    where
      either : Leads (λ s. Unseen s ⊎ Called s) Called
      either s (inl p) = call s p
      either s (inr p) = already (λ _ q. q) s p
