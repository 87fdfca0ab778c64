-- ===== src/Examples/Cores.antt =====
-- The endpoints of liteiclink/serwb/core.py at concrete ports.
use liteiclink.Base.{
  ℕ, ◌+◌, ◌*◌, ◌/◌, true, false, List, [], ◌∷◌, ◌≡◌, refl, arith, replicate, Slot, some,
}
use liteiclink.Serwb.Core.{has_key, Core, add_upstream_endpoint, sel, lookup}
use liteiclink.Serwb.Core.Ports.{
  IsValid, AddsUpstream, add_upstream_endpoint_lem, Selects, sel-Selects,
}
use liteiclink.Serwb.Core.Routing.{delivered, to_owners, core_delivers}
use liteiclink.Serwb.Packet.{depacketizer_reset, send_preamble}
use liteiclink.Serwb.Packet.Encode.{encode, packetize}
use liteiclink.Serwb.Packet.Decode.{depacketize}
use liteiclink.Serwb.Packet.Roundtrip.{Packet, AllValid, packets_beats}

-- Etherbone on port 0 and virtual IOs on port 3.
abbrev core : Core ℕ
core = record {
  downstream_endpoints = (0, 10) ∷ (3, 30) ∷ [];
  upstream_endpoints = (0, 11) ∷ (3, 31) ∷ [];
}

core-IsValid : IsValid core
unfolding has_key
core-IsValid = record { downstream = (refl, (refl, tt)); upstream = (refl, (refl, tt)) }

add_upstream_endpoint_lem_example : AddsUpstream 3 99 core (add_upstream_endpoint ℕ 3 99 core)
add_upstream_endpoint_lem_example = add_upstream_endpoint_lem 3 99 core core-IsValid

sel-Selects_example : Selects 3 core.upstream_endpoints (sel ℕ 3 core) (some 31)
unfolding lookup
sel-Selects_example = sel-Selects 3 core core-IsValid

abbrev owner : ℕ → ℕ
owner p = 11 + p / 3 * 20

abbrev packets : List Packet
packets =
    record { port = 3; length = 8; word = 0x11; words = 0x5aa55aa5 ∷ [] }
    ∷ record { port = 0; length = 4; word = 0x22; words = [] }
    ∷ []

packets-AllValid : AllValid packets
packets-AllValid = omega arith

abbrev busy : List Slot
busy =
    record { present = false; ready = true } ∷ replicate 9 (record { present = true; ready = true })

core_delivers_example :
    delivered core
      (depacketize depacketizer_reset busy
        (packetize send_preamble busy (packets_beats packets)).words).beats
    ≡ to_owners owner (packets_beats packets)
unfolding encode lookup
core_delivers_example =
    core_delivers core owner depacketizer_reset packets busy busy core-IsValid (refl, (refl, tt))
      refl packets-AllValid (omega arith) (omega arith)
