-- ===== src/Serwb/Efinix/Shift.antt =====
-- A pulse of `shift_inc` takes one bit out of the stream of liteiclink/serwb/efinixserdes.py.
use liteiclink.Base.{
  take-append, drop-append, length-drop, drop-drop, ℕ, zero, suc, ◌+◌, ◌-◌, ◌*◌, ◌<◌, Bool, true,
  false, ◌&&◌, List, [], ◌∷◌, ◌++◌, ◌==◌, if◌then◌else◌, take, drop, length, length-append, ◌≡◌,
  refl, sym, arith, ap, ap₂, ◌∙◌, All, ltb, replicate, Bool-cases, inl, inr,
}
use mathlib.Core.List.{append_assoc}
use liteiclink.Serwb.Datapath.{aligner_out, aligner_next}
use liteiclink.Serwb.Efinix.{
  slip_next, slip_out, number, phase_next, Rx, RxInput, rx_aligner, rx_next,
}

-- The bytes that are cut from a stream of bits, one after the other.
abbrev pub chunks : ℕ → List Bool → List ℕ
chunks zero bs = []
chunks (suc n) bs = number (take 8 bs) ∷ chunks n (drop 8 bs)

-- The bits of the cycles, in the order in which they come.
abbrev pub arriving : List RxInput → List Bool
arriving [] = []
arriving (n ∷ ns) = n.bits ++ arriving ns

-- The words that the aligner hands on.
abbrev pub handed_on : Rx → List RxInput → List ℕ
handed_on s [] = []
handed_on s (n ∷ ns) =
    let rest = handed_on (rx_next 1 s n) ns in
    if (aligner_out s.aligner (rx_aligner s n)).source_valid && n.ready
    then (rx_aligner s n).element ∷ rest
    else rest

-- At one phase: the count of the shifts is that of the bitslip, which is within its registers.
pub record IsAligned (s : Rx) : Type 0 where
  pub counted : s.shift ≡ s.slip.value
  pub in_word : s.slip.value < 8
  pub two_words : length s.slip.r ≡ 16
  pub one_phase : s.phase ≡ 0

-- A cycle at one phase, whose word is taken.
pub record IsCycle (inc : Bool) (n : RxInput) : Type 0 where
  pub pulse : n.shift_inc ≡ inc
  pub selected : n.phase_sel ≡ 0
  pub byte : length n.bits ≡ 8
  pub ready : n.ready ≡ true

abbrev pub history : Rx → List RxInput → List Bool
history s ns = s.slip.r ++ arriving ns

-- The state after a cycle.
next-history :
    (s : Rx) (n : RxInput) (ns : List RxInput)
    → IsAligned s
    → history (rx_next 1 s n) ns ≡ drop 8 (history s (n ∷ ns))
unfolding rx_next slip_next
next-history s n ns v =
    append_assoc (drop 8 s.slip.r) n.bits (arriving ns)
    ∙ sym (drop-append 8 s.slip.r (n.bits ++ arriving ns) (omega (arith, v.two_words)))

next-IsAligned :
    (s : Rx) (n : RxInput) (inc : Bool) → IsAligned s → IsCycle inc n → IsAligned (rx_next 1 s n)
unfolding rx_next slip_next phase_next
next-IsAligned s n inc v c = record {
  counted = ground (arith, v.counted, v.in_word, c.pulse);
  in_word = ground (arith, v.in_word);
  two_words =
      omega (
        arith,
        v.two_words,
        c.byte,
        length-drop 8 s.slip.r,
        length-append (drop 8 s.slip.r) n.bits,
      );
  one_phase = ground (arith, v.one_phase);
}

-- The word of a cycle.
word-history :
    (s : Rx) (n : RxInput) (ns : List RxInput)
    → IsAligned s
    → (rx_aligner s n).element ≡ number (take 8 (drop s.slip.value (history s ns)))
unfolding rx_aligner slip_out
word-history s n ns v =
    let e : ltb s.slip.value (1 * 8) ≡ true = ground (arith, v.in_word) in
    ap (λ b. number (if b then take 8 (drop s.slip.value s.slip.r) else replicate 8 false)) e
    ∙ ap number (
        sym (
          ap (take 8) (
            drop-append s.slip.value s.slip.r (arriving ns) (omega (arith, v.in_word, v.two_words)))
          ∙ take-append 8 (drop s.slip.value s.slip.r) (arriving ns)
              (omega (arith, v.in_word, v.two_words, length-drop s.slip.value s.slip.r))))

-- A cycle hands its word on unless the aligner shifts.
cycle-kept :
    (s : Rx) (n : RxInput) (ns : List RxInput) (inc : Bool)
    → IsAligned s
    → IsCycle inc n
    → s.aligner ≡ false
    → handed_on s (n ∷ ns) ≡ (rx_aligner s n).element ∷ handed_on (rx_next 1 s n) ns
unfolding aligner_out rx_aligner
cycle-kept s n ns inc v c h = ground (arith, v.one_phase, c.selected, c.ready)

cycle-dropped :
    (s : Rx) (n : RxInput) (ns : List RxInput)
    → s.aligner ≡ true
    → handed_on s (n ∷ ns) ≡ handed_on (rx_next 1 s n) ns
unfolding aligner_out rx_aligner
cycle-dropped s n ns h = ground arith

next-aligner :
    (s : Rx) (n : RxInput) (inc : Bool)
    → IsAligned s
    → IsCycle inc n
    → (rx_next 1 s n).aligner ≡ (inc && s.slip.value == 7)
unfolding rx_next rx_aligner aligner_next aligner_out
next-aligner s n inc v c = ground (arith, v.counted, v.one_phase, c.pulse, c.selected, c.ready)

next-value :
    (s : Rx) (n : RxInput) (inc : Bool)
    → IsCycle inc n
    → (rx_next 1 s n).slip.value
      ≡ (if inc then (if s.slip.value == 7 then 0 else s.slip.value + 1) else s.slip.value)
unfolding rx_next slip_next
next-value s n inc c = ground (arith, c.pulse)

-- The stream from the bit `k` of the next state on.
next-drop :
    (s : Rx) (n : RxInput) (ns : List RxInput) (j k : ℕ)
    → IsAligned s
    → k + 8 ≡ j
    → drop k (history (rx_next 1 s n) ns) ≡ drop j (history s (n ∷ ns))
next-drop s n ns j k v h =
    ap (drop k) (next-history s n ns v) ∙ drop-drop k 8 j (history s (n ∷ ns)) (omega arith)

-- Without a pulse the words are cut from where the bitslip stands.
words-quiet :
    (s : Rx) (ns : List RxInput)
    → IsAligned s
    → s.aligner ≡ false
    → All (IsCycle false) ns
    → handed_on s ns ≡ chunks (length ns) (drop s.slip.value (history s ns))
words-quiet s [] v h a = refl
words-quiet s (n ∷ ns) v h (c, a) =
    let e = next-value s n false c in
    cycle-kept s n ns false v c h
    ∙ ap₂ (λ x xs. x ∷ xs) (word-history s n (n ∷ ns) v)
        (words-quiet (rx_next 1 s n) ns (next-IsAligned s n false v c) (next-aligner s n false v c)
            a
          ∙ ap (chunks (length ns)) (
              next-drop s n ns (s.slip.value + 8) (rx_next 1 s n).slip.value v (omega (arith, e))
              ∙ sym (drop-drop 8 s.slip.value (s.slip.value + 8) (history s (n ∷ ns)) refl)))

-- The same where the aligner has still to shift: the first word is left out.
words-shifting :
    (s : Rx) (ns : List RxInput)
    → IsAligned s
    → s.aligner ≡ true
    → All (IsCycle false) ns
    → handed_on s ns ≡ chunks (length ns - 1) (drop (s.slip.value + 8) (history s ns))
words-shifting s [] v h a = refl
words-shifting s (n ∷ ns) v h (c, a) =
    let e = next-value s n false c in
    let k : length ns ≡ suc (length ns) - 1 = omega arith in
    cycle-dropped s n ns h
    ∙ words-quiet (rx_next 1 s n) ns (next-IsAligned s n false v c) (next-aligner s n false v c) a
    ∙ ap₂ chunks k
        (next-drop s n ns (s.slip.value + 8) (rx_next 1 s n).slip.value v (omega (arith, e)))

-- The words of the cycles after a pulse: one less where the bitslip starts again.
abbrev pub words_after : ℕ → List RxInput → ℕ
words_after value ms = if value == 7 then length ms - 1 else length ms

words-pulse :
    (s : Rx) (m : RxInput) (ms : List RxInput)
    → IsAligned s
    → s.aligner ≡ false
    → IsCycle true m
    → All (IsCycle false) ms
    → handed_on s (m ∷ ms)
      ≡ chunks 1 (drop s.slip.value (history s (m ∷ ms)))
        ++ chunks (words_after s.slip.value ms) (drop (s.slip.value + 9) (history s (m ∷ ms)))
words-pulse s m ms v h c a =
    let w = next-IsAligned s m true v c in
    let t = rx_next 1 s m in
    cycle-kept s m ms true v c h
    ∙ ap₂ (λ x xs. x ∷ xs) (word-history s m (m ∷ ms) v)
        (elim (Bool-cases (s.slip.value == 7)) [
          | inl e ↦
              let z = next-value s m true c in
              words-shifting t ms w (next-aligner s m true v c ∙ e) a
              ∙ ap₂ chunks (ground arith)
                  (next-drop s m ms (s.slip.value + 9) (t.slip.value + 8) v (ground arith))
          | inr e ↦
              let z = next-value s m true c in
              words-quiet t ms w (next-aligner s m true v c ∙ e) a
              ∙ ap₂ chunks (ground arith)
                  (next-drop s m ms (s.slip.value + 9) t.slip.value v (ground arith))
        ])

-- At one phase, with every word taken: the words handed on are the bytes of the stream of bits from
-- where the bitslip stands, and a pulse of `shift_inc` takes out the one bit that follows the word of
-- its cycle, also where the bitslip starts again and the aligner drops a word for it.
pub pulse_takes_bit :
    (s : Rx) (ns : List RxInput) (m : RxInput) (ms : List RxInput)
    → IsAligned s
    → s.aligner ≡ false
    → All (IsCycle false) ns
    → IsCycle true m
    → All (IsCycle false) ms
    → let h = history s (ns ++ (m ∷ ms)) in
      let v = s.slip.value in
      handed_on s (ns ++ (m ∷ ms))
      ≡ chunks (length ns + 1) (drop v h)
        ++ chunks (words_after v ms) (drop (v + 8 * (length ns + 1) + 1) h)
pulse_takes_bit s [] m ms v q a c b =
    words-pulse s m ms v q c b
    ∙ ap
        (λ j.
          chunks 1 (drop s.slip.value (history s (m ∷ ms)))
          ++ chunks (words_after s.slip.value ms) (drop j (history s (m ∷ ms))))
        (omega arith)
pulse_takes_bit s (n ∷ ns) m ms v q (d, a) c b =
    let t = rx_next 1 s n in
    let h = history s (n ∷ (ns ++ (m ∷ ms))) in
    let e = next-value s n false d in
    let k : suc (length ns) + 1 ≡ suc (length ns + 1) = omega arith in
    cycle-kept s n (ns ++ (m ∷ ms)) false v d q
    ∙ ap₂ (λ x xs. x ∷ xs) (word-history s n (n ∷ (ns ++ (m ∷ ms))) v)
        (pulse_takes_bit t ns m ms (next-IsAligned s n false v d) (next-aligner s n false v d) a c b
          ∙ ap₂ (λ xs ys. xs ++ ys)
              (ap (chunks (length ns + 1)) (
                next-drop s n (ns ++ (m ∷ ms)) (s.slip.value + 8) t.slip.value v (omega (arith, e))
                ∙ sym (drop-drop 8 s.slip.value (s.slip.value + 8) h refl)))
              (ap₂ chunks (ap (λ j. words_after j ms) e) (
                next-drop s n (ns ++ (m ∷ ms)) (s.slip.value + 8 * (suc (length ns) + 1) + 1)
                  (t.slip.value + 8 * (length ns + 1) + 1) v (omega (arith, e)))))
    ∙ ap
        (λ j.
          chunks j (drop s.slip.value h)
          ++ chunks (words_after s.slip.value ms)
              (drop (s.slip.value + 8 * (suc (length ns) + 1) + 1) h))
        (sym k)
