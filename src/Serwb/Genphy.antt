-- ===== src/Serwb/Genphy.antt =====
-- liteiclink/serwb/genphy.py: the vendor agnostic physical layer.
pub mod Search
pub mod Master
pub mod Slave
pub mod Handshake
