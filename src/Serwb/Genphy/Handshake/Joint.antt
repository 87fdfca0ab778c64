-- ===== src/Serwb/Genphy/Handshake/Joint.antt =====
-- The end of the handshake of liteiclink/serwb/genphy.py: the master and then the slave stop sending
-- commas, and the link stays up.
use liteiclink.Base.{ℕ, true, Option, none, some, ◌≡◌, ◌⊎◌}
use liteiclink.Serwb.Genphy.Master
use liteiclink.Serwb.Genphy.Master.Align.{outcome}
use liteiclink.Serwb.Genphy.Slave
use liteiclink.Serwb.Genphy.Handshake.{Setup, Ends, words}
use liteiclink.Serwb.Genphy.Handshake.Recall.{SlaveIn}
use liteiclink.Serwb.Genphy.Handshake.Settle.{Calm}
use liteiclink.Serwb.Genphy.Handshake.SlaveSearch.{Finds}

module _ (e : Setup) (o : Option ℕ) (j : ℕ) where
  abbrev In : Slave.Fsm → Ends e → Type 0
  In f s = Calm e s × (s.master ≡ outcome o) × SlaveIn e f j s × (e.down.aligned s.down 0 ≡ true)

  -- The master has ended with `o`, the slave is ready, with its receiver aligned, and it is not reset.
  abbrev pub Linked : Ends e → Type 0
  Linked = In Slave.ready

  abbrev Closing : Ends e → Type 0
  Closing = In Slave.send_pattern

  abbrev Closed : Ends e → Type 0
  Closed s = Linked s ⊎ (Closing s × (e.down.settled words s.down ≡ 0))

module _ (e : Setup) (finds : Finds e.down) where
  -- Both ends are ready, each at some shift.
  abbrev pub BothUp : Ends e → Type 0
  BothUp s = (i : ℕ) × ((j : ℕ) × Linked e (some i) j s)

  -- The master has ended in error, and the slave is ready at some shift.
  abbrev pub SlaveUp : Ends e → Type 0
  SlaveUp s = (j : ℕ) × Linked e none j s
