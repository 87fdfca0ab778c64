-- ===== src/Serwb.antt =====
-- liteiclink/serwb: Wishbone over a serial link.
pub mod Scrambler
pub mod Packet
pub mod Genphy
pub mod Control
pub mod Phy
pub mod Series7
pub mod Serio
pub mod Core
pub mod Datapath
pub mod Link
pub mod Efinix
