-- ===== src/Serwb/Datapath/Aligner.antt =====
-- RXAligner of liteiclink/serwb/datapath.py over a stream of elements.
use liteiclink.Base.{
  ℕ, Bool, true, false, ◌&&◌, List, [], ◌∷◌, ◌++◌, ◌≡◌, refl, arith, All, if◌then◌else◌, drop,
}
use liteiclink.Serwb.Datapath.{AlignerIn, aligner_out, aligner_next}

-- The elements that the aligner takes from the sink, and those that it hands to the source.
abbrev pub accepted : Bool → List AlignerIn → List ℕ
accepted shift [] = []
accepted shift (n ∷ ns) =
    let rest = accepted (aligner_next shift n) ns in
    if n.valid && (aligner_out shift n).sink_ready then n.element ∷ rest else rest

abbrev pub forwarded : Bool → List AlignerIn → List ℕ
forwarded shift [] = []
forwarded shift (n ∷ ns) =
    let rest = forwarded (aligner_next shift n) ns in
    if (aligner_out shift n).source_valid && n.ready then n.element ∷ rest else rest

abbrev pub NoShift : AlignerIn → Type 0
NoShift n = n.shift_inc ≡ false

-- Without a shift all is forwarded; after one, all but the first element.
passes : (ns : List AlignerIn) → All NoShift ns → forwarded false ns ≡ accepted false ns
unfolding aligner_out aligner_next
passes [] a = refl
passes (n ∷ ns) (h, a) = ground (arith, passes ns a)

drops : (ns : List AlignerIn) → All NoShift ns → forwarded true ns ≡ drop 1 (accepted true ns)
unfolding aligner_out aligner_next
drops [] a = refl
drops (n ∷ ns) (h, a) = ground (arith, passes ns a, drops ns a)

-- A pulse of `shift_inc` between cycles without one removes from the stream the first element that
-- is accepted after it, and nothing else, over any gaps and stalls.
pub shift_removes :
    (ns : List AlignerIn) (m : AlignerIn) (ms : List AlignerIn)
    → All NoShift ns
    → m.shift_inc ≡ true
    → All NoShift ms
    → (forwarded false (ns ++ (m ∷ ms))
        ≡ accepted false (ns ++ (m ∷ [])) ++ drop 1 (accepted true ms))
      × (accepted false (ns ++ (m ∷ ms)) ≡ accepted false (ns ++ (m ∷ [])) ++ accepted true ms)
unfolding aligner_out aligner_next
shift_removes [] m ms a h b = ground (arith, drops ms b)
shift_removes (n ∷ ns) m ms (g, a) h b = ground (arith, shift_removes ns m ms a h b)
