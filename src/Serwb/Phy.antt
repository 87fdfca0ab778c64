-- ===== src/Serwb/Phy.antt =====
-- liteiclink/serwb/phy.py: the physical layer over the FPGA vendors' serializers.
mod Taps
pub mod Master
pub mod Slave
