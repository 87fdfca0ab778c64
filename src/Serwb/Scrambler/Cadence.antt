-- ===== src/Serwb/Scrambler/Cadence.antt =====
-- How often the scrambler sends a SYNC symbol: liteiclink/serwb/scrambler.py.
use liteiclink.Base.{◌+◌, ◌%◌, ◌<◌, List, [], ◌∷◌, ◌≡◌, ◌==◌, arith, clock, count_if}
use liteiclink.Serwb.Scrambler.{
  Scrambler, ScramblerIn, scrambler_out, scrambler_next, scrambler_reset, sync_interval, is_sync,
}

count-clock :
    (s : Scrambler) (ns : List ScramblerIn)
    → s.count < sync_interval
    → (clock scrambler_next s ns).count ≡ (s.count + count_if (λ n. n.ready) ns) % sync_interval
unfolding scrambler_next
count-clock s [] h = omega arith
count-clock s (n ∷ ns) h = ground (arith, count-clock (scrambler_next s n) ns)

-- The symbol is SYNC exactly when the count is 0: data never looks like SYNC.
is_sync-out :
    (s : Scrambler) (n : ScramblerIn) → is_sync (scrambler_out s n).symbol ≡ (s.count == 0)
unfolding scrambler_out is_sync
is_sync-out s n = ground arith

-- After any cycles from reset, the symbol that the scrambler offers is SYNC exactly when the number
-- of symbols that were sent is a multiple of the interval of 1024, whatever the data and the stalls.
pub sync_cadence :
    (ns : List ScramblerIn) (n : ScramblerIn)
    → is_sync (scrambler_out (clock scrambler_next scrambler_reset ns) n).symbol
      ≡ (count_if (λ i. i.ready) ns % sync_interval == 0)
sync_cadence ns n =
    ground (
      arith,
      is_sync-out (clock scrambler_next scrambler_reset ns) n,
      count-clock scrambler_reset ns,
    )
