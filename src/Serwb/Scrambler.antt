-- ===== src/Serwb/Scrambler.antt =====
-- liteiclink/serwb/scrambler.py. A bit vector is the list of its bits, the lowest first.
pub mod Recover
pub mod Cadence
use Prim.Native.Nat.{bit_or}
use liteiclink.Base.{
  ℕ, zero, suc, ◌+◌, ◌*◌, ◌/◌, ◌%◌, ◌^◌, Bool, true, false, ◌&&◌, not, List, [], ◌∷◌, ◌==◌,
  if◌then◌else◌, replicate,
}
use mathlib.Core.Bool.{xor}

abbrev pub Word : Type 0
Word = List Bool

-- `(y << 5) | x`
unfoldable pub k_char : ℕ → ℕ → ℕ
k_char x y = bit_or (y * 2 ^ 5) x

unfoldable pub to_bits : ℕ → ℕ → Word
to_bits zero n = []
to_bits (suc w) n = (n % 2 == 1) ∷ to_bits w (n / 2)

unfoldable pub bits_eq : Word → Word → Bool
unfolding xor
bits_eq [] [] = true
bits_eq (a ∷ x) (b ∷ y) = not (xor a b) && bits_eq x y
bits_eq _ _ = false

-- `curval[tap]`, and `curval.pop()`
abbrev bit_at : ℕ → Word → Bool
bit_at _ [] = false
bit_at zero (b ∷ bs) = b
bit_at (suc n) (b ∷ bs) = bit_at n bs

abbrev pop : Word → Word
pop [] = []
pop (b ∷ []) = []
pop (b ∷ c ∷ bs) = b ∷ pop (c ∷ bs)

-- `Reduce("XOR", [curval[tap] for tap in taps])`
pub flip : List ℕ → Word → Bool
flip [] curval = false
flip (tap ∷ taps) curval = xor (bit_at tap curval) (flip taps curval)

-- The body of the loop over `reversed(range(n_io))`: the last bit of `i` is scrambled first. The
-- result is `curval` after the loop and the bits of `o`.
unfoldable pub unit : List ℕ → Word → Word → Word × Word
unfolding flip xor
unit taps curval [] = (curval, [])
unit taps curval (b ∷ bs) =
    let (above, o) = unit taps curval bs in
    (flip taps above ∷ pop above, xor (flip taps above) b ∷ o)

abbrev pub n_state : ℕ
n_state = 23

abbrev pub taps : List ℕ
taps = 17 ∷ 22 ∷ []

abbrev pub n_io : ℕ
n_io = 32

-- `Signal(n_state, reset=1)`
abbrev pub reset_state : Word
reset_state = true ∷ replicate 22 false

-- `ResetInserter` is outside `CEInserter`: a reset wins.
abbrev pub unit_next : Bool → Bool → Word → Word → Word
unit_next reset ce state i =
    if reset then reset_state else if ce then (unit taps state i).0 else state

-- What a transfer between the two ends carries: `d` of 32 bits and `k` of 4.
pub record Symbol : Type 0 where
  pub d : Word
  pub k : ℕ

-- `Scrambler`, with `sync_interval` = 2 ** 10.
abbrev pub sync_interval : ℕ
sync_interval = 1024

abbrev pub sync_word : Word
sync_word = to_bits n_io (k_char 29 7)

pub record Scrambler : Type 0 where
  pub count : ℕ
  pub state : Word

pub record ScramblerIn : Type 0 where
  pub valid : Bool  -- sink.valid
  pub word : Word  -- sink.data
  pub ready : Bool  -- source.ready

pub record ScramblerOut : Type 0 where
  pub sink_ready : Bool
  pub source_valid : Bool
  pub symbol : Symbol
  pub i : Word
  pub reset : Bool
  pub ce : Bool

abbrev pub scrambler_reset : Scrambler
scrambler_reset = record { count = 0; state = reset_state }

unfoldable pub scrambler_out : Scrambler → ScramblerIn → ScramblerOut
unfolding unit to_bits k_char
scrambler_out s n =
    if s.count == 0
    then record {
      sink_ready = false;
      source_valid = true;
      symbol = record { d = sync_word; k = 1 };
      i = replicate n_io false;
      reset = true;
      ce = false;
    }
    else (let i = if n.valid then n.word else replicate n_io false in
        record {
          sink_ready = n.ready;
          source_valid = true;
          symbol = record { d = (unit taps s.state i).1; k = 0 };
          i = i;
          reset = false;
          ce = n.ready;
        })

unfoldable pub scrambler_next : Scrambler → ScramblerIn → Scrambler
unfolding scrambler_out
scrambler_next s n =
    let o = scrambler_out s n in
    record {
      count = if n.ready then (s.count + 1) % sync_interval else s.count;
      state = unit_next o.reset o.ce s.state o.i;
    }

-- `Descrambler`: its only register is the state of its `_Scrambler`.
pub record DescramblerIn : Type 0 where
  pub valid : Bool  -- sink.valid
  pub symbol : Symbol  -- sink.d, sink.k
  pub ready : Bool  -- source.ready

pub record DescramblerOut : Type 0 where
  pub sink_ready : Bool
  pub source_valid : Bool
  pub word : Word
  pub reset : Bool
  pub ce : Bool

unfoldable pub is_sync : Symbol → Bool
unfolding bits_eq to_bits k_char
is_sync c = c.k == 1 && bits_eq c.d sync_word

unfoldable pub descrambler_out : Word → DescramblerIn → DescramblerOut
unfolding unit is_sync
descrambler_out state n =
    let idle : DescramblerOut = record {
      sink_ready = false;
      source_valid = false;
      word = replicate n_io false;
      reset = false;
      ce = false;
    } in
    if n.valid
    then (if is_sync n.symbol
        then record idle { sink_ready = true; reset = true }
        else record idle {
          source_valid = true;
          word = (unit taps state n.symbol.d).1;
          sink_ready = n.ready;
          ce = n.ready;
        })
    else idle

unfoldable pub descrambler_next : Word → DescramblerIn → Word
unfolding descrambler_out
descrambler_next state n =
    let o = descrambler_out state n in unit_next o.reset o.ce state n.symbol.d
