-- ===== src/Serwb/Genphy/Handshake/Settle.antt =====
-- The second part of the handshake of liteiclink/serwb/genphy.py: the master sends commas and waits for
-- the slave, which sees the end of the idle line.
use liteiclink.Base.{
  ◌+◌, ◌-◌, ◌≤◌, ◌<◌, true, false, ◌≡◌, ◌⊎◌, inl, inr, arith, Bool-cases, once, ◌>>>◌, runs_out,
}
use liteiclink.Serwb.Genphy.Master
use liteiclink.Serwb.Genphy.Slave
use liteiclink.Serwb.Genphy.Handshake.{Setup, Ends, idle, comma, slave_in, ends_next}
use liteiclink.Serwb.Genphy.Handshake.Recall.{Leads, m_left, s_left, MasterIn, SlaveIn}

module _ (e : Setup) where
  -- The master sends commas, and sees the slave's idle line.
  abbrev pub Pattern : Ends e → Type 0
  Pattern s = MasterIn e Master.send_pattern 0 s × (e.up.settled idle s.up ≡ 0)

  pub Pattern-step :
      (s : Ends e)
      → Pattern s
      → let o = Slave.out s.slave (slave_in e s) in
        o.tx_idle ≡ true
        → Pattern (ends_next e s)
          × (m_left e (ends_next e s) ≡ e.timeout)
          × ((ends_next e s).down ≡ e.down.step comma false s.slave_reset o.rx_shift s.down)
  unfolding ends_next Master.next Master.out
  Pattern-step s p t = ground (
    arith,
    e.up.idle_seen s.up,
    e.up.settled-idle s.slave_reset s.up,
    e.timer.remaining-release s.master_timer,
  )

  -- The slave is in IDLE or, since it left IDLE, in WAIT-STABLE.
  abbrev pub Fresh : (Ends e → Type 0) → Ends e → Type 0
  Fresh P s = SlaveIn e Slave.idle 0 s ⊎ (SlaveIn e Slave.wait_stable 0 s × P s)

  -- The slave may still see idle, and is then reset again.
  abbrev Lingers : Ends e → Type 0
  Lingers s =
      (e.down.lingering s.down + 2 ≤ s_left e s) × (e.down.settled comma s.down ≤ s_left e s)

  abbrev pub Early : Ends e → Type 0
  Early s = Pattern s × Fresh Lingers s

  -- In WAIT-STABLE its timer has just started, or goes on while the master's commas settle.
  abbrev Continues : Ends e → Ends e → Type 0
  Continues s t =
      (s_left e t ≡ e.timeout)
      ⊎ (Lingers s
          × (s_left e t ≡ s_left e s - 1)
          × (t.down ≡ e.down.step comma false false false s.down))

  Early-Fresh : (s : Ends e) → Early s → Fresh (Continues s) (ends_next e s)
  unfolding ends_next Slave.next Slave.out
  Early-Fresh s (p, h) = elim (Bool-cases s.slave_reset) [
    | inl r ↦ inl (ground arith)
    | inr r ↦ elim h [
      | inl i ↦ elim (Bool-cases (e.timer.done s.slave_timer)) [
        | inl d ↦ inr (ground arith, inl (ground (arith, e.timer.remaining-release s.slave_timer)))
        | inr b ↦ inl (ground arith)
      ]
      | inr w ↦ inr (
        ground (arith, e.timer.done-remaining s.slave_timer),
        inr (
            ground (
              arith,
              Pattern-step s p,
              e.timer.done-remaining s.slave_timer,
              e.timer.remaining-wait s.slave_timer,
            )),
      )
    ]
  ]

  Early-Pattern :
      (s : Ends e)
      → Early s
      → Pattern (ends_next e s)
        × (e.down.lingering (ends_next e s).down ≤ e.down.lingering s.down - 1)
  unfolding Slave.out
  Early-Pattern s (p, h) =
      ground (arith, Pattern-step s p, e.down.lingering-falls s.slave_reset s.down)

  Fresh-Lingers :
      (s t : Ends e)
      → e.down.lingering t.down < e.down.lingering s.down
      → Fresh (Continues s) t
      → Fresh Lingers t
  Fresh-Lingers s t l (inl i) = inl i
  Fresh-Lingers s t l (inr (w, c)) = inr (
    w,
    ground (
      arith,
      e.room,
      e.down.settled-step comma s.down,
      e.down.settled-le comma t.down,
      e.down.lingering-le t.down,
    ),
  )

  Early-step :
      (s : Ends e)
      → Early s
      → 0 < e.down.lingering s.down
      → Early (ends_next e s) × (e.down.lingering (ends_next e s).down < e.down.lingering s.down)
  Early-step s p g =
      let (q, l) = Early-Pattern s p in
      ((q, Fresh-Lingers s (ends_next e s) (omega arith) (Early-Fresh s p)), omega arith)

  -- The slave will not see idle any more, so that it will not be reset.
  abbrev pub Calm : Ends e → Type 0
  Calm s = (s.slave_reset ≡ false) × (e.down.lingering s.down ≡ 0)

  abbrev pub Settles : Ends e → Type 0
  Settles s = e.down.settled comma s.down ≤ s_left e s

  Fresh-Settles : (s t : Ends e) → Fresh (Continues s) t → Fresh Settles t
  Fresh-Settles s t (inl i) = inl i
  Fresh-Settles s t (inr (w, c)) =
      inr (
        w,
        ground (arith, e.room, e.down.settled-step comma s.down, e.down.settled-le comma t.down),
      )

  -- The slave searches while the master waits.
  abbrev pub Search : Ends e → Type 0
  Search s = Pattern s × Calm s

  pub settle : Leads e Early (λ s. Search s × Fresh Settles s)
  unfolding ends_next
  settle =
      runs_out (λ s. e.down.lingering s.down) Early-step
      >>> once (λ s q.
        let (p, z) = q in
        let (m, l) = Early-Pattern s p in
        (
          (m, (e.down.idle_over s.down z, omega arith)),
          Fresh-Settles s (ends_next e s) (Early-Fresh s p),
        ))
