-- ===== src/Serwb/Serio.antt =====
-- The virtual IOs of liteiclink/serwb/core.py: SERIOPacketizer in front of a Packetizer, and
-- SERIODepacketizer. `i` is taken as it leaves its synchronizer, and `port` is set by the core.
pub mod Delivery
use liteiclink.Base.{
  ℕ, ◌+◌, ◌*◌, Bool, true, false, not, ◌&&◌, ◌==◌, List, [], ◌∷◌, ◌++◌, if◌then◌else◌,
}
use liteiclink.Serwb.Packet.{Beat, PacketizerState, PacketizerIn, packetizer_out, packetizer_next}

-- The registers: `i_d`, and the state of the packetizer.
pub record Serio : Type 0 where
  pub i_d : ℕ
  pub state : PacketizerState

-- `i`, and whether the channel behind the packetizer is ready.
pub record SerioIn : Type 0 where
  pub i : ℕ
  pub ready : Bool

module _ (port : ℕ) where
  -- What the packetizer sees: `source.valid`, `source.last`, `source.data` and `source.length`.
  unfoldable pub serio_source : Serio → SerioIn → PacketizerIn
  serio_source s n = record {
    valid = not (n.i == s.i_d);
    beat = record { port = port; length = 4; word = n.i; last = true };
    ready = n.ready;
  }

  unfoldable pub serio_next : Serio → SerioIn → Serio
  unfolding serio_source packetizer_out packetizer_next
  serio_next s n =
      let p = serio_source s n in
      record {
        i_d = if (packetizer_out s.state p).sink_ready then n.i else s.i_d;
        state = packetizer_next s.state p;
      }

  -- The word that a cycle sends, and those of a run.
  unfoldable pub serio_word : Serio → SerioIn → List ℕ
  unfolding serio_source packetizer_out
  serio_word s n =
      let o = packetizer_out s.state (serio_source s n) in
      if o.source_valid && n.ready then o.source_word ∷ [] else []

  unfoldable pub serio_words : Serio → List SerioIn → List ℕ
  unfolding serio_word serio_next
  serio_words s [] = []
  serio_words s (n ∷ ns) = serio_word s n ++ serio_words (serio_next s n) ns

-- SERIODepacketizer, which is always ready: `o` after the given transfers.
unfoldable pub serio_output : ℕ → List Beat → ℕ
serio_output o [] = o
serio_output o (b ∷ bs) = serio_output (if b.last then b.word else o) bs
