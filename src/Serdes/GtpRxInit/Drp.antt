-- ===== src/Serdes/GtpRxInit/Drp.antt =====
-- The DRP accesses of the receiver in liteiclink/serdes/gtp_7series_init.py.
use Prim.Native.Nat.{bit_and}
use liteiclink.Base.{ℕ, Bool, true, false, List, [], ◌∷◌, ◌≡◌, ◌⊎◌, arith, clock, All}
use liteiclink.Serdes.GtpRxInit.{
  Fsm, Init, Input, power_down, wait_init_delay, drp_read_issue, drp_read_wait, drp_mod_issue,
  drp_restore_issue, out, drp_di, next, fsm_reset,
}

-- The value was read, and the FSM has not started again.
abbrev has_read : Fsm → Bool
has_read power_down = false
has_read wait_init_delay = false
has_read drp_read_issue = false
has_read drp_read_wait = false
has_read _ = true

-- The value `v` was read and is kept.
record Kept (v : ℕ) (s : Init) : Type 0 where
  late : has_read s.fsm ≡ true
  value : s.drpvalue ≡ v

next-Kept :
    (b : Bool) (v : ℕ) (s : Init) (n : Input) → Kept v s → fsm_reset n ≡ false → Kept v (next b s n)
unfolding next
next-Kept b v s n k r = ground arith

clock-Kept :
    (b : Bool) (v : ℕ) (s : Init) (ns : List Input)
    → Kept v s
    → All (λ n. fsm_reset n ≡ false) ns
    → Kept v (clock (next b) s ns)
clock-Kept b v s [] k a = k
clock-Kept b v s (n ∷ ns) k (r, rs) = clock-Kept b v (next b s n) ns (next-Kept b v s n k r) rs

read-Kept :
    (b : Bool) (s : Init) (n : Input)
    → s.fsm ≡ drp_read_wait
    → fsm_reset n ≡ false
    → n.drp_rdy ≡ true
    → Kept n.drp_do (next b s n)
unfolding next
read-Kept b s n f r d = ground arith

write-Kept :
    (b : Bool) (v : ℕ) (s : Init) (m : Input)
    → Kept v s
    → (out b s m).drp_we ≡ true
    → ((s.fsm ≡ drp_mod_issue) × (drp_di b s m ≡ bit_and v 0xf7ff))
      ⊎ ((s.fsm ≡ drp_restore_issue) × (drp_di b s m ≡ v))
unfolding out drp_di
write-Kept b v s m k w = ground arith

-- After a read that gave `n.drp_do`, and as long as the FSM is not reset, every write to the DRP is
-- either the modification, of that value with bit 11 cleared, or the restoration, of that value.
pub drp_restores :
    (b : Bool) (s : Init) (n : Input) (ns : List Input) (m : Input)
    → s.fsm ≡ drp_read_wait
    → fsm_reset n ≡ false
    → n.drp_rdy ≡ true
    → All (λ i. fsm_reset i ≡ false) ns
    → (out b (clock (next b) (next b s n) ns) m).drp_we ≡ true
    → let t = clock (next b) (next b s n) ns in
      ((t.fsm ≡ drp_mod_issue) × (drp_di b t m ≡ bit_and n.drp_do 0xf7ff))
      ⊎ ((t.fsm ≡ drp_restore_issue) × (drp_di b t m ≡ n.drp_do))
drp_restores b s n ns m f r d a w =
    write-Kept b n.drp_do (clock (next b) (next b s n) ns) m
      (clock-Kept b n.drp_do (next b s n) ns (read-Kept b s n f r d) a) w
