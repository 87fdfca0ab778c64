-- ===== src/Serwb/Datapath/Idle.antt =====
-- The detection of an idle line by RXDatapath of liteiclink/serwb/datapath.py, with its timer.
use liteiclink.Base.{
  ℕ, ◌-◌, ◌^◌, ◌≤◌, Bool, true, false, ◌||◌, ◌==◌, List, [], ◌∷◌, ◌≡◌, arith, All, length, clock,
  ExactTimer, if◌then◌else◌,
}
use liteiclink.Serwb.Datapath.{Flags, RxIn, flags_next}

module _ (k28_5 k28_1 : ℕ) (T : ExactTimer 32) where
  -- The registers `idle_timer.wait` and `comma`, and `idle_timer`, a WaitTimer(32).
  pub record Detector : Type 0 where
    pub flags : Flags k28_5 k28_1
    pub timer : T.State

  -- `idle`
  unfoldable pub sees_idle : Detector → Bool
  sees_idle s = T.done s.timer

  unfoldable pub detector_next : Detector → RxIn k28_5 k28_1 → Detector
  unfolding flags_next
  detector_next s n = record {
    flags = flags_next k28_5 k28_1 s.flags n;
    timer = T.tick s.flags.idle_wait s.timer;
  }

  abbrev zeroes : ℕ → Bool
  zeroes w = w == 0 || w == 2 ^ 40 - 1

  -- A cycle in which the word that may come is `idle`, or is not.
  abbrev pub Brings : Bool → RxIn k28_5 k28_1 → Type 0
  Brings idle n = (if n.word_valid then zeroes n.word else idle) ≡ idle

  -- What the flag and the timer are while the words stay of one kind.
  idle-waits :
      (s : Detector) (ns : List (RxIn k28_5 k28_1))
      → s.flags.idle_wait ≡ true
      → T.remaining s.timer ≤ length ns
      → All (Brings true) ns
      → sees_idle (clock detector_next s ns) ≡ true
  unfolding sees_idle detector_next flags_next
  idle-waits s [] w r a = ground (arith, T.done-remaining s.timer)
  idle-waits s (n ∷ ns) w r (b, a) =
      ground (arith, idle-waits (detector_next s n) ns, a, T.remaining-wait s.timer)

  busy-releases :
      (s : Detector) (n : RxIn k28_5 k28_1) (ns : List (RxIn k28_5 k28_1))
      → s.flags.idle_wait ≡ false
      → All (Brings false) (n ∷ ns)
      → sees_idle (clock detector_next s (n ∷ ns)) ≡ false
  unfolding sees_idle detector_next flags_next
  busy-releases s n [] w a =
      ground (arith, T.remaining-release s.timer, T.done-remaining (detector_next s n).timer)
  busy-releases s n (m ∷ ns) w (b, a) = ground (arith, busy-releases (detector_next s n) m ns, a)

  -- With a timer that needs at most its 32 cycles: a line on which every word that comes is zeroes or
  -- ones counts as idle from 33 cycles after the first of them on, and one on which no such word comes
  -- does not count as idle from the second cycle after its first word on.
  pub sees_idle_lem :
      (idle : Bool) (s : Detector) (n : RxIn k28_5 k28_1) (ns : List (RxIn k28_5 k28_1))
      → T.remaining s.timer ≤ 32
      → n.word_valid ≡ true
      → All (Brings idle) (n ∷ ns)
      → (if idle then 32 else 1) ≤ length ns
      → sees_idle (clock detector_next s (n ∷ ns)) ≡ idle
  unfolding detector_next flags_next
  sees_idle_lem true s n ns r v (b, a) g =
      idle-waits (detector_next s n) ns (ground arith)
        (ground (arith, T.remaining-wait s.timer, T.remaining-release s.timer)) a
  sees_idle_lem false s n [] r v (b, a) g = absurd (omega arith)
  sees_idle_lem false s n (m ∷ ns) r v (b, a) g =
      busy-releases (detector_next s n) m ns (ground arith) a
