-- ===== src/Serdes.antt =====
-- liteiclink/serdes: the transceivers of several FPGA families.
pub mod GtxInit
pub mod GthInit
pub mod GtyInit
pub mod GthUsInit
pub mod GtpTxInit
pub mod GtpRxInit
pub mod Inits
pub mod Channel
pub mod Pll
pub mod ClockAligner
pub mod Ecp5
pub mod Lanes
pub mod DrpMux
