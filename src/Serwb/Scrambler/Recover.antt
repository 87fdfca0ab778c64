-- ===== src/Serwb/Scrambler/Recover.antt =====
-- The descrambler recovers what the scrambler was given: liteiclink/serwb/scrambler.py.
use liteiclink.Base.{
  ℕ, ◌≤◌, Bool, true, false, ◌&&◌, List, [], ◌∷◌, ◌++◌, ◌≡◌, ◌⊎◌, inl, refl, sym, ◌∙◌, ap,
  if◌then◌else◌, arith, length, count_if, Slot, moves,
}
use mathlib.Core.Bool.{xor}
use mathlib.Core.List.{append-nil}
use liteiclink.Serwb.Scrambler.{
  Word, unit, taps, Symbol, is_sync, sync_word, reset_state, Scrambler, ScramblerIn, scrambler_out,
  scrambler_next, DescramblerIn, descrambler_out, descrambler_next,
}

xor_cancel : (a b : Bool) → xor a (xor a b) ≡ b
unfolding xor
xor_cancel true true = refl
xor_cancel true false = refl
xor_cancel false true = refl
xor_cancel false false = refl

-- The state that follows does not depend on the word, and scrambling twice gives the word back.
unit_state : (ts : List ℕ) (st i : Word) → (unit ts st (unit ts st i).1).0 ≡ (unit ts st i).0
unfolding unit
unit_state ts st [] = refl
unit_state ts st (b ∷ bs) = rw (unit_state ts st bs)

unit_twice : (ts : List ℕ) (st i : Word) → (unit ts st (unit ts st i).1).1 ≡ i
unfolding unit
unit_twice ts st [] = refl
unit_twice ts st (b ∷ bs) = rw (unit_state ts st bs, unit_twice ts st bs, xor_cancel _ b)

-- The symbols that pass from the scrambler to its sink, one for each cycle with `source.ready`.
abbrev pub sent : Scrambler → List ScramblerIn → List Symbol
sent s [] = []
sent s (n ∷ ns) =
    let rest = sent (scrambler_next s n) ns in
    if n.ready then (scrambler_out s n).symbol ∷ rest else rest

-- The words that the scrambler took in, one for each cycle with `sink.ready`: zeros if the sink
-- was not valid.
abbrev pub accepted : Scrambler → List ScramblerIn → List Word
accepted s [] = []
accepted s (n ∷ ns) =
    let rest = accepted (scrambler_next s n) ns in
    if (scrambler_out s n).sink_ready then (scrambler_out s n).i ∷ rest else rest

abbrev pub slot_in : Slot → Symbol → DescramblerIn
slot_in p w = record { valid = p.present; symbol = w; ready = p.ready }

-- The descrambler over a sequence of slots: the words that it hands over, its state, and the
-- symbols that the channel still holds.
pub record Received : Type 0 where
  pub words : List Word
  pub state : Word
  pub left : List Symbol

abbrev pub drive : Word → List Slot → List Symbol → Received
drive st [] ws = record { words = []; state = st; left = ws }
drive st (p ∷ ps) [] = drive st ps []
drive st (p ∷ ps) (w ∷ ws) =
    let n = slot_in p w in
    let o = descrambler_out st n in
    let rest = drive (descrambler_next st n) ps (if o.sink_ready then ws else w ∷ ws) in
    if o.source_valid && p.ready then record rest { words = o.word ∷ rest.words } else rest

-- The words that a list of symbols stands for when the descrambler starts in the given state.
pub descramble : Word → List Symbol → List Word
descramble st [] = []
descramble st (w ∷ ws) =
    let rest = descramble (if is_sync w then reset_state else (unit taps st w.d).0) ws in
    if is_sync w then rest else (unit taps st w.d).1 ∷ rest

-- Whatever the stalls, what was received and what is left stand for the same words.
drive-descramble :
    (st : Word) (ps : List Slot) (ws : List Symbol)
    → (drive st ps ws).words ++ descramble (drive st ps ws).state (drive st ps ws).left
      ≡ descramble st ws
unfolding descramble descrambler_next
drive-descramble st [] ws = refl
drive-descramble st (p ∷ ps) [] = drive-descramble st ps []
drive-descramble st (p ∷ ps) (w ∷ ws) = ground (
  arith,
  drive-descramble reset_state ps ws,
  drive-descramble (unit taps st w.d).0 ps ws,
  drive-descramble st ps (w ∷ ws),
)

sync_is_sync : is_sync (record { d = sync_word; k = 1 }) ≡ true
unfolding is_sync
sync_is_sync = refl

data_not_sync : (d : Word) → is_sync (record { d = d; k = 0 }) ≡ false
unfolding is_sync
data_not_sync d = refl

descramble-sent :
    (x : Word) (s : Scrambler) (ns : List ScramblerIn)
    → (s.count ≡ 0) ⊎ (x ≡ s.state)
    → descramble x (sent s ns) ≡ accepted s ns
unfolding descramble scrambler_next
descramble-sent x s [] h = refl
descramble-sent x s (n ∷ ns) h = ground (
  arith,
  descramble-sent x (scrambler_next s n) ns,
  descramble-sent reset_state (scrambler_next s n) ns,
  descramble-sent (unit taps x (unit taps s.state (scrambler_out s n).i).1).0 (scrambler_next s n)
      ns,
  unit_state taps s.state (scrambler_out s n).i,
  unit_twice taps s.state (scrambler_out s n).i,
  sync_is_sync,
  data_not_sync (unit taps s.state (scrambler_out s n).i).1,
)

-- As many slots without gap or stall as symbols empty the channel.
drive-left :
    (st : Word) (ps : List Slot) (ws : List Symbol)
    → length ws ≤ count_if moves ps
    → (drive st ps ws).left ≡ []
unfolding descrambler_next
drive-left st [] [] h = refl
drive-left st [] (w ∷ ws) h = absurd (omega arith)
drive-left st (p ∷ ps) [] h = drive-left st ps [] (omega arith)
drive-left st (p ∷ ps) (w ∷ ws) h = ground (
  arith,
  drive-left reset_state ps ws,
  drive-left (unit taps st w.d).0 ps ws,
  drive-left st ps (w ∷ ws),
)

-- From a scrambler about to send a SYNC symbol, or in step with the descrambler, and over a
-- channel with any gaps and stalls: the words that the descrambler hands over, followed by those
-- that the symbols still in the channel stand for, are the words that the scrambler took in.
pub drive-sent :
    (x : Word) (s : Scrambler) (ns : List ScramblerIn) (ps : List Slot)
    → (s.count ≡ 0) ⊎ (x ≡ s.state)
    → let r = drive x ps (sent s ns) in r.words ++ descramble r.state r.left ≡ accepted s ns
drive-sent x s ns ps h = drive-descramble x ps (sent s ns) ∙ descramble-sent x s ns h

-- A descrambler in any state at all, which joins when the scrambler is about to send a SYNC
-- symbol, hands over exactly the words that the scrambler took in, once the channel had as many
-- slots without gap or stall as there are symbols; and the channel is then empty.
pub drive_recovers :
    (x : Word) (s : Scrambler) (ns : List ScramblerIn) (ps : List Slot)
    → s.count ≡ 0
    → length (sent s ns) ≤ count_if moves ps
    → ((drive x ps (sent s ns)).words ≡ accepted s ns) × ((drive x ps (sent s ns)).left ≡ [])
unfolding descramble
drive_recovers x s ns ps h enough =
    let empty = drive-left x ps (sent s ns) enough in
    (
      sym (append-nil _)
          ∙ ap (λ l. r.words ++ descramble r.state l) (sym empty)
          ∙ drive-sent x s ns ps (inl h),
      empty,
    )
  where
    r : Received
    r = drive x ps (sent s ns)
