-- ===== src/Serwb/Packet/Decode.antt =====
-- What the depacketizer of liteiclink/serwb/packet.py reads from a stream of words.
use liteiclink.Base.{
  ℕ, ◌≤◌, true, false, ◌&&◌, List, [], ◌∷◌, ◌++◌, ◌≡◌, refl, arith, if◌then◌else◌, length, count_if,
  Slot, moves, sym, ◌∙◌, ap,
}
use mathlib.Core.List.{append-nil}
use liteiclink.Serwb.Packet.{
  Beat, Depacketizer, DepacketizerIn, depacketizer_out, depacketizer_next,
}

-- A cycle in which the timer is not done.
abbrev pub word_in : Slot → ℕ → DepacketizerIn
word_in p w = record { valid = p.present; word = w; ready = p.ready; done = false }

pub record Depacketized : Type 0 where
  pub beats : List Beat
  pub state : Depacketizer
  pub left : List ℕ

-- The depacketizer over a sequence of slots. The sender keeps a word until `sink.ready`.
abbrev pub depacketize : Depacketizer → List Slot → List ℕ → Depacketized
depacketize s [] ws = record { beats = []; state = s; left = ws }
depacketize s (p ∷ ps) [] = depacketize s ps []
depacketize s (p ∷ ps) (w ∷ ws) =
    let n = word_in p w in
    let o = depacketizer_out s n in
    let rest =
      depacketize (depacketizer_next s n) ps (if n.valid && o.sink_ready then ws else w ∷ ws) in
    if o.source_valid && p.ready then record rest { beats = o.beat ∷ rest.beats } else rest

abbrev flowing : Slot
flowing = record { present = true; ready = true }

-- The beats that the words stand for when the depacketizer is in the given state: those of a run
-- without gap or stall.
unfoldable pub decode : Depacketizer → List ℕ → List Beat
decode s [] = []
decode s (w ∷ ws) =
    let rest = decode (depacketizer_next s (word_in flowing w)) ws in
    let o = depacketizer_out s (word_in flowing w) in if o.source_valid then o.beat ∷ rest else rest

-- Over any gaps and stalls, the beats that were handed over, followed by those that the words not
-- yet taken stand for, are the beats that all the words stand for.
pub depacketize-decode :
    (s : Depacketizer) (ps : List Slot) (ws : List ℕ)
    → let r = depacketize s ps ws in r.beats ++ decode r.state r.left ≡ decode s ws
unfolding decode depacketizer_out depacketizer_next
depacketize-decode s [] ws = refl
depacketize-decode s (p ∷ ps) [] = depacketize-decode s ps []
depacketize-decode s (p ∷ ps) (w ∷ ws) = ground (
  arith,
  depacketize-decode s ps (w ∷ ws),
  depacketize-decode (depacketizer_next s (word_in flowing w)) ps ws,
)

-- As many slots without gap or stall as words are enough for every word to be taken.
pub depacketize-left :
    (s : Depacketizer) (ps : List Slot) (ws : List ℕ)
    → length ws ≤ count_if moves ps
    → (depacketize s ps ws).left ≡ []
unfolding depacketizer_out depacketizer_next
depacketize-left s [] [] h = refl
depacketize-left s [] (w ∷ ws) h = absurd (omega arith)
depacketize-left s (p ∷ ps) [] h = depacketize-left s ps [] (ground arith)
depacketize-left s (p ∷ ps) (w ∷ ws) h = ground (
  arith,
  depacketize-left s ps (w ∷ ws),
  depacketize-left s ps ws,
  depacketize-left (depacketizer_next s (word_in flowing w)) ps ws,
)

pub depacketize_all :
    (s : Depacketizer) (ps : List Slot) (ws : List ℕ)
    → length ws ≤ count_if moves ps
    → (depacketize s ps ws).beats ≡ decode s ws
unfolding decode
depacketize_all s ps ws h =
    sym (append-nil _)
    ∙ ap (λ l. r.beats ++ decode r.state l) (sym (depacketize-left s ps ws h))
    ∙ depacketize-decode s ps ws
  where
    r : Depacketized
    r = depacketize s ps ws
