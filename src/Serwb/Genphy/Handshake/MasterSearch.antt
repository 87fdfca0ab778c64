-- ===== src/Serwb/Genphy/Handshake/MasterSearch.antt =====
-- The fourth part of the handshake of liteiclink/serwb/genphy.py: the master searches for the commas
-- of the slave, which goes on sending them as long as it sees the master's.
use liteiclink.Base.{
  ℕ, zero, suc, Bool, ◌+◌, ◌-◌, ◌≤◌, ◌<◌, true, false, Option, none, some, ◌≡◌, ◌⊎◌, inl, inr,
  arith, Bool-cases, once, already, ◌>>>◌, descends, runs_out,
}
use liteiclink.Serwb.Genphy.Master
use liteiclink.Serwb.Genphy.Master.Align.{outcome}
use liteiclink.Serwb.Genphy.Slave
use liteiclink.Serwb.Genphy.Handshake.{Setup, Ends, comma, master_in, ends_next}
use liteiclink.Serwb.Genphy.Handshake.Recall.{Leads, m_left, MasterIn, SlaveIn}
use liteiclink.Serwb.Genphy.Handshake.Settle.{Calm}
use liteiclink.Serwb.Genphy.Handshake.SlaveSearch.{Finds, FoundAt}
use native.Mathlib.Decide.{dec_lt}

module _ (e : Setup) (j : ℕ) where
  -- The slave sees commas and sends commas.
  abbrev pub Holds : Ends e → Type 0
  Holds s =
      Calm e s
      × SlaveIn e Slave.send_pattern j s
      × (e.down.settled comma s.down ≡ 0)
      × (e.down.aligned s.down 0 ≡ true)

  Holds-step :
      (s : Ends e)
      → Holds s
      → let o = Master.out s.master (master_in e s) in
        o.tx_comma ≡ true
        → o.tx_idle ≡ false
        → Holds (ends_next e s)
          × ((ends_next e s).up ≡ e.up.step comma false false o.rx_shift s.up)
          × ((ends_next e s).master ≡ Master.next s.master (master_in e s))
          × ((ends_next e s).master_timer ≡ e.timer.tick o.timer_wait s.master_timer)
  unfolding ends_next Slave.next Slave.out
  Holds-step s h c i = ground (
    arith,
    e.down.idle_over s.down,
    e.down.comma_seen s.down h.2,
    e.down.settled-step comma s.down,
    e.down.aligned-step comma s.down 0,
    e.down.lingering-comma false s.down,
  )

  abbrev Settles : Ends e → Type 0
  Settles s = e.up.settled comma s.up ≤ m_left e s

  -- The master's search is over.
  abbrev pub Ended : Option ℕ → Ends e → Type 0
  Ended o s = Holds s × (s.master ≡ outcome o)

  -- The master is to be aligned, or not to be aligned, after `m` shifts more.
  module _ (b : Bool) where
    abbrev In : Master.Fsm → ℕ → ℕ → Ends e → Type 0
    In f k m s = Holds s × MasterIn e f k s × (e.up.aligned s.up m ≡ b)

    abbrev Seen : Master.Fsm → ℕ → ℕ → Ends e → Type 0
    Seen f k m s = In f k m s × (e.up.settled comma s.up ≡ 0)

    -- The master still waits for the slave's commas.
    abbrev Awaits : ℕ → Ends e → Type 0
    Awaits m s = In Master.send_pattern 0 m s × Settles s

    awaits : (m : ℕ) → Leads e (λ s. FoundAt e j s × (e.up.aligned s.up m ≡ b)) (Awaits m)
    unfolding Master.next Master.out
    awaits m = once (λ s ((((p, c), h, a), d), q). ground (
      arith,
      e.room,
      Holds-step s (c, h, d, a),
      e.up.idle_seen s.up,
      e.timer.remaining-release s.master_timer,
      e.up.settled-le comma (ends_next e s).up,
      e.up.aligned-step comma s.up m,
    ))

    Awaits-step :
        (m : ℕ) (s : Ends e)
        → Awaits m s
        → (Seen Master.check_pattern 0 m (ends_next e s) ⊎ Awaits m (ends_next e s))
          × (e.up.lingering (ends_next e s).up ≤ e.up.lingering s.up - 1)
    unfolding Master.next Master.out
    Awaits-step m s p = (
      elim (Bool-cases (e.up.sees_idle s.up)) [
        | inl i ↦ inr (
            ground (
              arith,
              e.room,
              Holds-step s p.0.0,
              e.timer.remaining-release s.master_timer,
              e.up.settled-le comma (ends_next e s).up,
              e.up.aligned-step comma s.up m,
            ))
        | inr i ↦ elim (Bool-cases (e.timer.done s.master_timer)) [
          | inl d ↦ inl (
              ground (
                arith,
                Holds-step s p.0.0,
                e.timer.done-remaining s.master_timer,
                e.up.settled-step comma s.up,
                e.up.aligned-step comma s.up m,
              ))
          | inr b ↦ inr (
              ground (
                arith,
                Holds-step s p.0.0,
                e.timer.done-remaining s.master_timer,
                e.timer.remaining-wait s.master_timer,
                e.up.settled-step comma s.up,
                e.up.aligned-step comma s.up m,
              ))
        ]
      ],
      ground (arith, Holds-step s p.0.0, e.up.lingering-falls false s.up),
    )

    -- It sees commas, or it does not see idle any more.
    abbrev Notices : ℕ → Ends e → Type 0
    Notices m s = Seen Master.check_pattern 0 m s ⊎ (Awaits m s × (e.up.lingering s.up ≡ 0))

    notices : (m : ℕ) → Leads e (Awaits m) (Notices m)
    notices m =
        descends (λ s. e.up.lingering s.up)
          (λ s p.
            let (cases, l) = Awaits-step m s p in
            elim cases [
              | inl q ↦ inl (inl q)
              | inr q ↦ elim (dec_lt 0 (e.up.lingering s.up)) [
                | yes g ↦ inr (q, omega arith)
                | no g ↦ inl (inr (q, omega arith))
              ]
            ])

    checks :
        (m : ℕ)
        → Leads e (λ s. Awaits m s × (e.up.lingering s.up ≡ 0)) (Seen Master.check_pattern 0 m)
    unfolding Master.next Master.out
    checks m =
        runs_out (m_left e) (λ s p g. ground (
          arith,
          e.up.idle_over s.up p.1,
          Holds-step s p.0.0.0,
          e.timer.done-remaining s.master_timer,
          e.timer.remaining-wait s.master_timer,
          e.up.settled-step comma s.up,
          e.up.aligned-step comma s.up m,
          e.up.lingering-comma false s.up,
        ))
        >>> once (λ s p. ground (
          arith,
          e.up.idle_over s.up p.0.1,
          Holds-step s p.0.0.0.0,
          e.timer.done-remaining s.master_timer,
          e.up.settled-step comma s.up,
          e.up.aligned-step comma s.up m,
        ))

    -- From the slave's commas to the first check.
    begins :
        (m : ℕ)
        → Leads e (λ s. FoundAt e j s × (e.up.aligned s.up m ≡ b)) (Seen Master.check_pattern 0 m)
    begins m = awaits m >>> notices m >>> noticed
      where
        noticed : Leads e (Notices m) (Seen Master.check_pattern 0 m)
        noticed s (inl p) = already (λ _ q. q) s p
        noticed s (inr p) = checks m s p

    stabilises :
        (k m : ℕ)
        → Leads e (λ s. In Master.wait_stable k m s × Settles s) (Seen Master.check_pattern k m)
    unfolding Master.next Master.out
    stabilises k m =
        runs_out (m_left e) (λ s p g. ground (
          arith,
          Holds-step s p.0.0,
          e.timer.done-remaining s.master_timer,
          e.timer.remaining-wait s.master_timer,
          e.up.settled-step comma s.up,
          e.up.aligned-step comma s.up m,
        ))
        >>> once (λ s p. ground (
          arith,
          Holds-step s p.0.0.0,
          e.timer.done-remaining s.master_timer,
          e.up.settled-step comma s.up,
          e.up.aligned-step comma s.up m,
        ))

    -- Where it is not aligned, it shifts.
    shifts-inc :
        (k m : ℕ)
        → Leads e
            (λ s. Seen Master.check_pattern k m s × (e.up.aligned s.up 0 ≡ false))
            (In Master.inc_shift k m)
    unfolding Master.next Master.out
    shifts-inc k m = once (λ s p.
        ground
          (arith, Holds-step s p.0.0.0, e.up.comma_seen s.up p.0.1, e.up.aligned-step comma s.up m))

    shifts :
        (k m : ℕ)
        → k < 39
        → Leads e
            (In Master.inc_shift k (suc m))
            (λ s. In Master.wait_stable (suc k) m s × Settles s)
    unfolding Master.next Master.out
    shifts k m h = once (λ s p. ground (
      arith,
      e.room,
      Holds-step s p.0,
      e.timer.remaining-release s.master_timer,
      e.up.settled-le comma (ends_next e s).up,
      e.up.aligned-shift comma s.up m,
    ))

  finds : (k : ℕ) → Leads e (Seen true Master.check_pattern k 0) (Ended (some k))
  unfolding Master.next Master.out
  finds k =
      runs_out (m_left e) (λ s p g. ground (
        arith,
        Holds-step s p.0.0,
        e.timer.done-remaining s.master_timer,
        e.timer.remaining-wait s.master_timer,
        e.up.settled-step comma s.up,
        e.up.comma_seen s.up p.1,
        e.up.aligned-step comma s.up 0,
      ))
      >>> once (λ s p. ground (
        arith,
        Holds-step s p.0.0.0,
        e.timer.done-remaining s.master_timer,
        e.up.comma_seen s.up p.0.1,
      ))

  fails : (m : ℕ) → Leads e (In false Master.inc_shift 39 m) (Ended none)
  unfolding Master.next Master.out
  fails m = once (λ s p. ground (arith, Holds-step s p.0))

  abbrev pub EndedReady : Ends e → Type 0
  EndedReady s = (k : ℕ) × Ended (some k) s

  ready-at : (k : ℕ) → Leads e (Ended (some k)) EndedReady
  ready-at k = already (λ s p. (k, p))

  searches : (m k : ℕ) → k + m ≤ 39 → Leads e (Seen true Master.check_pattern k m) EndedReady
  searches zero k b s p = (finds k >>> ready-at k) s p
  searches (suc m) k b s p = elim (Bool-cases (e.up.aligned s.up 0)) [
    | inl c ↦ (finds k >>> ready-at k) s ((p.0.0, p.0.1, c), p.1)
    | inr c ↦
        (shifts-inc true k (suc m)
            >>> shifts true k m (omega arith)
            >>> stabilises true (suc k) m
            >>> searches m (suc k) (omega arith))
          s (p, c)
  ]

  -- The master ends READY where its receiver can be aligned.
  pub master_ready : Finds e.up → Leads e (FoundAt e j) EndedReady
  master_ready h s p =
      let (m, b, a) = h s.up in (begins true m >>> searches m 0 (omega (arith, b))) s (p, a)

  module _ (lost : (t : e.up.State) (k : ℕ) → e.up.aligned t k ≡ false) where
    exhausts : (m k : ℕ) → k + m ≡ 39 → Leads e (Seen false Master.check_pattern k m) (Ended none)
    exhausts zero k b s p =
        let last : k ≡ 39 = omega arith in
        (shifts-inc false k 0 >>> (rw last (fails 0))) s (p, lost s.up 0)
    exhausts (suc m) k b s p =
        (shifts-inc false k (suc m)
            >>> shifts false k m (omega arith)
            >>> stabilises false (suc k) m
            >>> exhausts m (suc k) (omega arith))
          s (p, lost s.up 0)

    -- And in ERROR where it cannot.
    pub master_fails : Leads e (FoundAt e j) (Ended none)
    master_fails s p = (begins false 39 >>> exhausts 39 0 (omega arith)) s (p, lost s.up 39)
