-- ===== src/Serwb/Core/Routing.antt =====
-- Packets between the endpoints of two cores of liteiclink/serwb/core.py, through the packetizer and
-- the depacketizer. Arbiter and Dispatcher, of LiteX, are taken at their ports: the arbiter hands on
-- whole packets, and the dispatcher hands a transfer to the endpoint at the place `sel`.
use liteiclink.Base.{
  ℕ, Bool, true, false, ◌≤◌, List, [], ◌∷◌, ◌++◌, ◌≡◌, refl, ap, ap₂, ◌∙◌, All, Option, some,
  length, count_if, Slot, moves, get_elem?,
}
use mathlib.Core.Path.{subst}
use liteiclink.Serwb.Core.{Core, lookup, sel}
use liteiclink.Serwb.Core.Ports.{IsValid, Selects, sel-Selects}
use liteiclink.Serwb.Packet.{Beat, Depacketizer, send_preamble, wait_preamble}
use liteiclink.Serwb.Packet.Encode.{encode, packetize}
use liteiclink.Serwb.Packet.Decode.{depacketize}
use liteiclink.Serwb.Packet.Roundtrip.{
  Packet, AllValid, payload_beats, packets_beats, depacketize-packetize,
}

abbrev beat : ℕ → ℕ → ℕ → Bool → Beat
beat port len w last = record { port = port; length = len; word = w; last = last }

module _ {E : Type 0} where
  -- The endpoint that gets a transfer, with its port.
  unfoldable pub receiver : Core E → Beat → Option (ℕ × E)
  receiver c b = get_elem? c.upstream_endpoints (sel E b.port c)

  abbrev pub delivered : Core E → List Beat → List (Option (ℕ × E) × Beat)
  delivered c [] = []
  delivered c (b ∷ bs) = (receiver c b, b) ∷ delivered c bs

  abbrev Known : Core E → (ℕ → E) → ℕ → Type 0
  Known c owner port = lookup port c.upstream_endpoints ≡ some (owner port)

  -- Every transfer with the endpoint that owns its port.
  abbrev pub to_owners : (ℕ → E) → List Beat → List (Option (ℕ × E) × Beat)
  to_owners owner [] = []
  to_owners owner (b ∷ bs) = (some (b.port, owner b.port), b) ∷ to_owners owner bs

  receiver-Known :
      (c : Core E) (owner : ℕ → E) (b : Beat)
      → IsValid c
      → Known c owner b.port
      → receiver c b ≡ some (b.port, owner b.port)
  unfolding receiver
  receiver-Known c owner b v k =
      subst (Selects b.port c.upstream_endpoints (sel E b.port c)) k (sel-Selects b.port c v)

  delivered-cons :
      (c : Core E) (owner : ℕ → E) (b : Beat) (bs : List Beat)
      → IsValid c
      → Known c owner b.port
      → delivered c bs ≡ to_owners owner bs
      → delivered c (b ∷ bs) ≡ to_owners owner (b ∷ bs)
  delivered-cons c owner b bs v k h = ap₂ (λ r l. (r, b) ∷ l) (receiver-Known c owner b v k) h

  delivered-payload :
      (c : Core E) (owner : ℕ → E) (port len w : ℕ) (xs : List ℕ) (bs : List Beat)
      → IsValid c
      → Known c owner port
      → delivered c bs ≡ to_owners owner bs
      → delivered c (payload_beats port len w xs ++ bs)
        ≡ to_owners owner (payload_beats port len w xs ++ bs)
  delivered-payload c owner port len w [] bs v k h =
      delivered-cons c owner (beat port len w true) bs v k h
  delivered-payload c owner port len w (x ∷ xs) bs v k h =
      delivered-cons c owner (beat port len w false) (payload_beats port len x xs ++ bs) v k
        (delivered-payload c owner port len x xs bs v k h)

  delivered-packets :
      (c : Core E) (owner : ℕ → E) (ps : List Packet)
      → IsValid c
      → All (λ p. Known c owner p.port) ps
      → delivered c (packets_beats ps) ≡ to_owners owner (packets_beats ps)
  delivered-packets c owner [] v a = refl
  delivered-packets c owner (p ∷ ps) v (k, a) =
      delivered-payload c owner p.port p.length p.word p.words (packets_beats ps) v k
        (delivered-packets c owner ps v a)

  -- Valid packets whose ports have endpoints in the receiving core, from a sender that keeps its beat
  -- until it is taken and holds `last` low in the gaps, reach exactly these endpoints, transfer by
  -- transfer and in order, whatever these gaps and the stalls on either side, while the timer does
  -- not expire, once each side had as many free slots as there are words.
  pub core_delivers :
      (c : Core E) (owner : ℕ → E) (s : Depacketizer) (ps : List Packet) (tx rx : List Slot)
      → IsValid c
      → All (λ p. lookup p.port c.upstream_endpoints ≡ some (owner p.port)) ps
      → s.fsm ≡ wait_preamble
      → AllValid ps
      → length (encode send_preamble (packets_beats ps)) ≤ count_if moves tx
      → length (encode send_preamble (packets_beats ps)) ≤ count_if moves rx
      → delivered c (depacketize s rx (packetize send_preamble tx (packets_beats ps)).words).beats
        ≡ to_owners owner (packets_beats ps)
  core_delivers c owner s ps tx rx v a w u t r =
      ap (delivered c) (depacketize-packetize s ps tx rx w u t r) ∙ delivered-packets c owner ps v a
