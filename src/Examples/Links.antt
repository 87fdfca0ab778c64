-- ===== src/Examples/Links.antt =====
-- Runs of the link controllers of liteiclink/serwb/genphy.py and liteiclink/serwb/phy.py.
use liteiclink.Base.{
  ℕ, zero, suc, ◌+◌, ◌<◌, ◌≤◌, ◌%◌, ◌&&◌, Bool, true, false, List, [], ◌∷◌, ◌≡◌, refl, arith, leb,
  replicate, clock, countdown, ◌==◌, Eventually,
}
use liteiclink.Serwb.Genphy.Master as GenMaster
use liteiclink.Serwb.Phy.Master as PhyMaster

-- Commas at the shifts 5 and 15 only.
abbrev at_five : ℕ → Bool
at_five k = k % 10 == 5

abbrev gen_master : GenMaster.Align.Timed (countdown 3) at_five
gen_master = record { core = GenMaster.reset; timer = 3 }

master_aligns_example :
    Eventually
      (GenMaster.Align.timed_next (countdown 3) at_five)
      gen_master
      (λ s. s.core ≡ record { fsm = GenMaster.ready; shift = 5 })
master_aligns_example = GenMaster.Align.master_aligns (countdown 3) at_five gen_master refl

-- Commas at the delays 3 to 6 of 32, on a timer that is always done.
master_line : ℕ → PhyMaster.Master → List PhyMaster.Input
master_line zero s = []
master_line (suc k) s =
    let n : PhyMaster.Input = record {
      done = true;
      rx_idle = false;
      rx_comma = leb 3 s.delay && leb s.delay 6;
    } in
    n ∷ master_line k (PhyMaster.next 32 1 s n)

abbrev master_tuned : List PhyMaster.Input
unfolding master_line PhyMaster.next
master_tuned = master_line 45 PhyMaster.power_on

master_follows_example :
    let tap = PhyMaster.Window.tap_after 32 1 0 PhyMaster.power_on master_tuned in
    (tap ≡ (PhyMaster.Window.run 32 1 master_tuned).delay) × (tap < 32)
master_follows_example = PhyMaster.Window.master_follows 32 1 master_tuned (omega arith)

master_tuned_centred : (PhyMaster.Window.run 32 1 master_tuned).fsm ≡ PhyMaster.ready
unfolding master_line PhyMaster.next
master_tuned_centred = refl

master_centred_example :
    let s = PhyMaster.Window.run 32 1 master_tuned in
    (s.delay ≡ PhyMaster.Window.middle s) × (s.delay_min + 2 ≤ s.delay_max)
master_centred_example =
    PhyMaster.Window.master_centred 32 1 master_tuned (omega arith) master_tuned_centred

abbrev choices : List PhyMaster.Livelock.Choice
choices = replicate 200 (record { done = true; rx_idle = false })

master_livelocks_example :
    let s = clock (PhyMaster.Livelock.line_next 32 1 31) PhyMaster.power_on choices in
    let n = PhyMaster.Livelock.seen 32 1 31 s (record { done = true; rx_idle = false }) in
    ((PhyMaster.out 32 1 s n).is_ready ≡ false) × ((PhyMaster.out 32 1 s n).is_error ≡ false)
master_livelocks_example =
    PhyMaster.Livelock.master_livelocks 32 1 31 choices (record { done = true; rx_idle = false })
      (omega arith) (omega arith)
