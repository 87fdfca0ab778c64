-- ===== src/Examples.antt =====
-- The theorems at concrete inputs, and runs of the circuits.
mod Streams
mod Links
mod Inits
mod Plls
mod Aligner
mod Serios
mod Ecp5s
mod Cores
mod Phys
mod Locks
mod Channels
mod Efinixs
mod Benches
mod Handshakes
