-- ===== src/Lib.antt =====
-- LiteICLink (liteiclink/): inter-chip links for FPGAs, written in Python with the Migen hardware
-- description library. liteiclink/serwb carries a Wishbone bus over a serial link, and
-- liteiclink/serdes drives the transceivers of several FPGA families.
--
-- A circuit is modelled by its registers (a record), the inputs of one clock cycle (a record), the
-- outputs that follow from both (`out`) and the registers after the cycle (`next`). Where the source
-- describes an FSM by `fsm.act`, one function `act` gives both for each state. Of several
-- assignments to a signal the last one that applies counts, a signal that none assigns has its
-- reset value, and a register that none assigns keeps its value: that is Migen's meaning. A run is a
-- list of the inputs of successive cycles (`Base.clock`); a closed circuit, whose inputs follow from
-- its state, runs by `Base.Reaches`. Words are native numbers with their wrap-around written out;
-- the scrambler and the bitslip, which work on bits, take lists of Booleans, the lowest bit first.
--
-- Base: shared names and lists; Base.Clocked: runs; Base.Timer: the interface of LiteX's WaitTimer,
--   which is not in this repository, with the behaviour that the circuits rely on, and
--   Base.Waiting: a circuit that waits for such a timer.
-- Serwb.Scrambler: Scrambler, Descrambler and _Scrambler of liteiclink/serwb/scrambler.py, with
--   `sync_interval` = 2 ** 10, `n_state` = 23 and 32 bits, as the only instances have them.
-- Serwb.Packet: Packetizer and Depacketizer of liteiclink/serwb/packet.py. `length[2:] - 1` is taken
--   on the 16 bits of the counter that it is compared with, as the generated hardware has it.
-- Serwb.Serio: SERIOPacketizer in front of a Packetizer, and SERIODepacketizer, of
--   liteiclink/serwb/core.py. The arbiter and the dispatcher, parts of LiteX, are left out.
-- Serwb.Core: the endpoints of SERWBCore in liteiclink/serwb/core.py and their selection by port;
--   Serwb.Core.Routing puts the packets of Serwb.Packet through it.
-- Serwb.Datapath: RXAligner, and the control symbols and the detection of idle of
--   TXDatapath and RXDatapath, of liteiclink/serwb/datapath.py.
-- Serwb.Link: SERWBPHY of liteiclink/serwb/genphy.py and
--   liteiclink/serwb/phy.py, its data path over the cycles of a link that is up and its choice of
--   the serializer.
-- Serwb.Efinix: BitSlip, and the shift and the data path of _EfinixSerdesRX, of
--   liteiclink/serwb/efinixserdes.py. Serwb.Series7: the shift of _S7SerdesRX in
--   liteiclink/serwb/s7serdes.py.
-- Serwb.Genphy.Master, Serwb.Genphy.Slave: _SerdesMasterInit and _SerdesSlaveInit of
--   liteiclink/serwb/genphy.py. Serwb.Genphy.Handshake closes the loop over both, their timers and
--   the reset of the slave by the link; the lines, with the pads and the data paths at their ends,
--   are an interface (`Handshake.Line`) of which it asks how long a symbol takes and what a shift
--   and a reset do to the alignment of the receiver, and `Handshake.Setup` asks `init_timeout`, 2 ** 16 by
--   default, to leave room for their latencies. Serwb.Phy.Master, Serwb.Phy.Slave: those of
--   liteiclink/serwb/phy.py, over any number of taps and any clock ratio; Steps closes the
--   loop over the timer and a line that is stable, and Search runs it.
-- Serwb.Control: _SerdesControl of both files, resets and PRBS checker.
--
-- Serdes.GtxInit, GthInit, GtyInit, GthUsInit, GtpTxInit and GtpRxInit: the classes of
--   liteiclink/serdes/*_init.py that bring a transceiver up. The signals from the transceiver are
--   taken as they leave their synchronizers, and the timers as inputs; each child Watchdog closes
--   the loop over the timer that restarts the FSM. Serdes.Inits puts the six side by side,
--   and Serdes.Channel wires two of them to the enables, the PLL and the clock aligner of a channel,
--   as the files of the six channels in liteiclink/serdes do (Kinds), with their clocks (Clocks).
--
-- Serdes.ClockAligner: BruteforceClockAligner of liteiclink/serdes/clock_aligner.py, each clock domain
--   by itself, with the flags as they leave their synchronizers.
-- Serdes.Ecp5: of liteiclink/serdes/serdes_ecp5.py, Sci, that is SerDesECP5SCI and
--   SerDesECP5SCIReconfig, over the registers of the transceiver as an interface (Sci.Device), and
--   Startup, that is SerdesInit.
-- Serdes.Lanes: the lanes of the Xilinx channels, as in liteiclink/serdes/gtx_7series.py, and, in
--   Ecp5Bus, those of SerDesECP5 in liteiclink/serdes/serdes_ecp5.py; the 8b/10b coder is a parameter
--   (`Serdes.Lanes.Roundtrip.Coder`).
-- Serdes.DrpMux: DRPMux of liteiclink/serdes/common.py.
-- Serdes.Pll: the searches for dividers (`compute_config`) of the PLLs in liteiclink/serdes: Channel,
--   Quad and Ecp5, and Tables, the dictionaries that are read under their results. The arithmetic of
--   Python's floats is a parameter (`Serdes.Pll.Arithmetic`), and no law of it is assumed but where a
--   theorem says so; Gty, GTYQuadPLL, takes more operations on them (`Serdes.Pll.Gty.Floats`).
--
-- Bench.Sim: the circuits of bench/serwb/sim.py that drive and check a simulated link.
--
-- The packet streams meet the link controllers only through `init.ready`, which opens the data path.
-- Not modelled: the primitives of the FPGA vendors and the circuits that only instantiate and wire
-- them, the parts of LiteX, LiteEth and Migen that the source calls (8b/10b coding, converters,
-- FIFOs, Etherbone, arbitration), the other benches and the build files; nor the parameters of the
-- Xilinx channels that depend on the line rate, and the registers that control them.
pub mod Base
pub mod Bench
pub mod Serdes
pub mod Serwb
mod Examples
