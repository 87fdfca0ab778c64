-- ===== src/Serdes/Ecp5.antt =====
-- The transceiver of liteiclink/serdes/serdes_ecp5.py: its register interface and its bring-up.
pub mod Sci
pub mod Startup
