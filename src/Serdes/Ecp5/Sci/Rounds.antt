-- ===== src/Serdes/Ecp5/Sci/Rounds.antt =====
-- A round of the settings through the registers of the channel, in
-- liteiclink/serdes/serdes_ecp5.py.
use liteiclink.Base.{
  Bool, true, ℕ, zero, suc, ◌+◌, ◌*◌, ◌/◌, ◌%◌, true, false, List, [], ◌++◌, ◌≡◌, refl, ap, ◌∙◌,
  arith, clock, clock-append, replicate, ◌==◌, if◌then◌else◌, ==_iff, Bool-cases, inl, inr,
}
use mathlib.Core.Path.{fun_ext}
use liteiclink.Serdes.Ecp5.Sci.{
  Settings, Input, idle, sci_idle, merge_01, merge_02, merge_15, merge_18,
}
use liteiclink.Serdes.Ecp5.Sci.Device.{SciDevice, System, system_next}

-- The inputs of a cycle in which the circuit runs with the settings `c`.
abbrev pub running : Bool → Settings → Input
running dual c = record {
  dual = dual;
  reset = false;
  settings = c;
  pause = false;
  sel = false;
  we = false;
  re = false;
  adr = 0;
  dat_w = 0;
}

-- The cycles of `k` rounds.
abbrev pub rounds : ℕ → Bool → Settings → List Input
rounds zero dual c = []
rounds (suc k) dual c = replicate 25 (running dual c) ++ rounds k dual c

-- The registers of the channel as the settings want them, for what they hold: the polarities in bits
-- 0 and 1 of 0x01, the idle and the hold bit in bit 6 of 0x02 and of 0x18, and with loopback 1 in the
-- low half of 0x15. All other bits stay.
abbrev pub configured : Settings → (ℕ → ℕ) → ℕ → ℕ
configured c view a =
    let x = view a in
    if a == 0x01
    then x / 4 * 4 + (if c.tx_polarity then 2 else 0) + (if c.rx_polarity then 1 else 0)
    else if a == 0x02
    then x / 128 * 128 + (if c.tx_idle then 64 else 0) + x % 64
    else if a == 0x15
    then if c.loopback then x / 16 * 16 + 1 else x
    else if a == 0x18
    then x / 128 * 128 + (if c.rx_cdr_hold then 64 else 0) + x % 64
    else x

abbrev merged : Settings → (ℕ → ℕ) → ℕ → ℕ
merged c view a =
    if a == 0x01
    then merge_01 c (view a)
    else if a == 0x02
    then merge_02 c (view a)
    else if a == 0x15
    then merge_15 c (view a)
    else if a == 0x18
    then merge_18 c (view a)
    else view a

module _ (c : Settings) (x : ℕ) where
  bits_01 :
      merge_01 c x ≡ x / 4 * 4 + (if c.tx_polarity then 2 else 0) + (if c.rx_polarity then 1 else 0)
  unfolding merge_01
  bits_01 = ground arith

  bits_02 : merge_02 c x ≡ x / 128 * 128 + (if c.tx_idle then 64 else 0) + x % 64
  unfolding merge_02
  bits_02 = ground arith

  bits_15 : merge_15 c x ≡ (if c.loopback then x / 16 * 16 + 1 else x)
  unfolding merge_15
  bits_15 = ground arith

  bits_18 : merge_18 c x ≡ x / 128 * 128 + (if c.rx_cdr_hold then 64 else 0) + x % 64
  unfolding merge_18
  bits_18 = ground arith

configured-merged : (c : Settings) (v : ℕ → ℕ) (a : ℕ) → merged c v a ≡ configured c v a
configured-merged c v a =
    ground (arith, bits_01 c (v a), bits_02 c (v a), bits_15 c (v a), bits_18 c (v a))

abbrev updated_view : ℕ → (ℕ → ℕ) → (ℕ → ℕ) → ℕ → ℕ
updated_view a f view b = if b == a then f (view a) else view b

merged-updated :
    (c : Settings) (v : ℕ → ℕ) (a : ℕ)
    → updated_view 0x18
        (merge_18 c)
        (updated_view 0x15
          (merge_15 c)
          (updated_view 0x02 (merge_02 c) (updated_view 0x01 (merge_01 c) v)))
        a
      ≡ merged c v a
merged-updated c v a = ground arith

module _ (D : SciDevice) where
  -- Between two rounds.
  pub record Resting (s : System D) : Type 0 where
    pub at_idle : s.core.fsm ≡ idle
    pub sci_at_idle : s.core.sci.fsm ≡ sci_idle

  unfoldable pub rest_at : (l x y z : ℕ) → D.State → System D
  rest_at l x y z d = record {
    core = record {
      fsm = idle;
      last_fsm_state = l;
      data_r = x;
      status = y;
      sci = record { fsm = sci_idle; dat_r = z };
    };
    device = d;
  }

  -- A state between two rounds, by its registers.
  pub rest_at-Resting :
      (s : System D)
      → Resting s
      → s ≡ rest_at s.core.last_fsm_state s.core.data_r s.core.status s.core.sci.dat_r s.device
  unfolding rest_at
  rest_at-Resting s r i = record s {
    core = record s.core { fsm = r.at_idle i; sci = record s.core.sci { fsm = r.sci_at_idle i } };
  }

module _ (D : SciDevice) (dual : Bool) where
  abbrev pub channel : System D → ℕ → ℕ
  channel s a = D.read s.device dual true a

  abbrev updated : D.State → ℕ → (ℕ → ℕ) → D.State
  updated d a f = D.write d dual true a (f (D.read d dual true a))

  abbrev rewritten : Settings → D.State → D.State
  rewritten c d =
      updated (updated (updated (updated d 1 (merge_01 c)) 2 (merge_02 c)) 0x15 (merge_15 c)) 0x18
        (merge_18 c)

  -- The registers that a round leaves.
  round_lem :
      (c : Settings) (l x y z : ℕ) (d : D.State)
      → (w : ℕ) × (v : ℕ) × (clock
            (system_next D)
            (rest_at D l x y z d)
            (replicate 25 (running dual c))
          ≡ rest_at D 10 w y v (rewritten c d))
  unfolding system_next rest_at
  round_lem c l x y z d = (_, _, refl)

  read-updated :
      (d : D.State) (a : ℕ) (f : ℕ → ℕ)
      → D.read (updated d a f) dual true ≡ updated_view a f (D.read d dual true)
  read-updated d a f = fun_ext λ b. elim (Bool-cases (b == a)) [
    | inl e ↦ rw e (rw ((==_iff b a).0 e) (D.read-write d dual true a (f (D.read d dual true a))))
    | inr e ↦ rw e (D.read-write_ne d dual true a b (f (D.read d dual true a)) (ground arith))
  ]

  -- Reading after one more update, where the reading before it is known.
  read-then :
      (d : D.State) (v : ℕ → ℕ) (a : ℕ) (f : ℕ → ℕ)
      → D.read d dual true ≡ v
      → D.read (updated d a f) dual true ≡ updated_view a f v
  read-then d v a f h = read-updated d a f ∙ ap (updated_view a f) h

  read-rewritten :
      (c : Settings) (d : D.State)
      → D.read (rewritten c d) dual true ≡ configured c (D.read d dual true)
  read-rewritten c d =
      read-then _ _ 0x18 (merge_18 c) (
        read-then _ _ 0x15 (merge_15 c)
          (read-then _ _ 0x02 (merge_02 c) (read-updated d 0x01 (merge_01 c))))
      ∙ fun_ext (λ a.
        merged-updated c (D.read d dual true) a ∙ configured-merged c (D.read d dual true) a)

  -- From between two rounds: between two rounds again, with the registers as they should be.
  round-Resting :
      (c : Settings) (s : System D)
      → Resting D s
      → let t = clock (system_next D) s (replicate 25 (running dual c)) in
        Resting D t × (channel t ≡ configured c (channel s))
  unfolding rest_at
  round-Resting c s r =
      let (w, v, e) =
        round_lem c s.core.last_fsm_state s.core.data_r s.core.status s.core.sci.dat_r s.device in
      let p =
        ap (λ u. clock (system_next D) u (replicate 25 (running dual c))) (rest_at-Resting D s r)
        ∙ e in
      (
        record { at_idle = ap (λ t. t.core.fsm) p; sci_at_idle = ap (λ t. t.core.sci.fsm) p },
        ap (λ t. D.read t.device dual true) p ∙ read-rewritten c s.device,
      )

configured_twice : (c : Settings) (v : ℕ → ℕ) → configured c (configured c v) ≡ configured c v
configured_twice c v = fun_ext λ a. ground arith

module _ (D : SciDevice) (dual : Bool) where
  -- Between two rounds, and after any further number of them but none, the registers of the channel
  -- are as the settings want them, from what they held, and the others hold what they held.
  pub rounds_configure :
      (c : Settings) (s : System D) (k : ℕ)
      → Resting D s
      → let t = clock (system_next D) s (rounds (suc k) dual c) in
        Resting D t × (channel D dual t ≡ configured c (channel D dual s))
  rounds_configure c s zero r =
      rw (clock-append (system_next D) s (replicate 25 (running dual c)) [])
        (round-Resting D dual c s r)
  rounds_configure c s (suc k) r =
      let (r', e) = round-Resting D dual c s r in
      let t = clock (system_next D) s (replicate 25 (running dual c)) in
      let (q, f) = rounds_configure c t k r' in
      rw (clock-append (system_next D) s (replicate 25 (running dual c)) (rounds (suc k) dual c))
        (q, f ∙ ap (configured c) e ∙ configured_twice c (channel D dual s))
