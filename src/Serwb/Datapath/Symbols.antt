-- ===== src/Serwb/Datapath/Symbols.antt =====
-- The control symbols between TXDatapath and RXDatapath of liteiclink/serwb/datapath.py.
use liteiclink.Base.{
  ℕ, Bool, true, false, not, ◌&&◌, ◌||◌, List, [], ◌∷◌, ◌≡◌, ◌≢◌, refl, arith, ap, ◌∙◌, All,
  if◌then◌else◌, ◌==◌,
}
use liteiclink.Serwb.Datapath.{TxIn, TxOut, tx_out, Flags, RxIn, flags_next, rx_wait, rx_out}

module _ (k28_5 k28_1 : ℕ) where
  -- What the decoder gives where it gets back what the encoder took.
  abbrev pub line : TxOut k28_5 k28_1 → Bool → RxIn k28_5 k28_1
  line o ready = record {
    word_valid = false;
    word = 0;
    valid = o.valid;
    k = o.k;
    d = o.d;
    ready = ready;
  }

  -- A symbol that is sent tells the receiver which control it was sent for: `wait` is set with it, or
  -- `comma` after it, where `wait` has precedence, and where neither is asked for they tell whether
  -- the symbol is one of theirs.
  pub flags-tx :
      (s : Flags k28_5 k28_1) (n : TxIn k28_5 k28_1) (ready : Bool)
      → k28_5 ≢ k28_1
      → (tx_out k28_5 k28_1 n).valid ≡ true
      → let m = line (tx_out k28_5 k28_1 n) ready in
        (rx_wait k28_5 k28_1 m ≡ (n.wait || (not n.comma && (n.k == 1 && n.word == k28_1))))
        × ((flags_next k28_5 k28_1 s m).comma
            ≡ (not n.wait && (n.comma || (n.k == 1 && n.word == k28_5))))
  unfolding tx_out flags_next rx_wait
  flags-tx s n ready h v = ground arith

  -- Without scrambling. The symbols that the encoder takes, and the words taken from the sink.
  abbrev pub sent : List (TxIn k28_5 k28_1) → List (ℕ × ℕ)
  sent [] = []
  sent (n ∷ ns) =
      let o = tx_out k28_5 k28_1 n in if o.valid && n.ready then (o.k, o.d) ∷ sent ns else sent ns

  abbrev pub taken : List (TxIn k28_5 k28_1) → List ℕ
  taken [] = []
  taken (n ∷ ns) =
      if n.valid && (tx_out k28_5 k28_1 n).sink_ready then n.word ∷ taken ns else taken ns

  -- The symbols that are taken from the decoder, and the words that the source hands on.
  abbrev pub received : List (RxIn k28_5 k28_1) → List (ℕ × ℕ)
  received [] = []
  received (m ∷ ms) =
      if m.valid && (rx_out k28_5 k28_1 m).decoder_ready
      then (m.k, m.d) ∷ received ms
      else received ms

  abbrev pub handed_on : List (RxIn k28_5 k28_1) → List ℕ
  handed_on [] = []
  handed_on (m ∷ ms) =
      if (rx_out k28_5 k28_1 m).source_valid && m.ready then m.d ∷ handed_on ms else handed_on ms

  abbrev without_waits : List (ℕ × ℕ) → List ℕ
  without_waits [] = []
  without_waits ((k, d) ∷ xs) =
      if k == 1 && d == k28_1 then without_waits xs else d ∷ without_waits xs

  handed_on-received : (ms : List (RxIn k28_5 k28_1)) → handed_on ms ≡ without_waits (received ms)
  unfolding rx_out rx_wait
  handed_on-received [] = refl
  handed_on-received (m ∷ ms) = ground (arith, handed_on-received ms)

  -- A cycle with data, `wait` or nothing.
  pub record IsPlain (n : TxIn k28_5 k28_1) : Type 0 where
    pub is_word : n.k ≡ 0
    pub not_idle : n.idle ≡ false
    pub not_comma : n.comma ≡ false

  without_waits-sent :
      (ns : List (TxIn k28_5 k28_1)) → All IsPlain ns → without_waits (sent ns) ≡ taken ns
  unfolding tx_out
  without_waits-sent [] a = refl
  without_waits-sent (n ∷ ns) (p, a) =
      ground (arith, p.is_word, p.not_idle, p.not_comma, without_waits-sent ns a)

  -- Without scrambling, in cycles with a data word (k = 0) or none and without idle and comma: where
  -- the receiver gets the symbols that were sent, over any gaps and stalls on either side, its source
  -- hands on the words that were taken from the sink, however often `wait` was asked for in between.
  pub words-handed_on :
      (ns : List (TxIn k28_5 k28_1)) (ms : List (RxIn k28_5 k28_1))
      → All IsPlain ns
      → received ms ≡ sent ns
      → handed_on ms ≡ taken ns
  words-handed_on ns ms a h = handed_on-received ms ∙ ap without_waits h ∙ without_waits-sent ns a
