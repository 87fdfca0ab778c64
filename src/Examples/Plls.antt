-- ===== src/Examples/Plls.antt =====
-- Searches of the PLLs of liteiclink/serdes, with frequencies in whole hertz.
use liteiclink.Base.{ℕ, ◌+◌, ◌-◌, ◌*◌, ◌/◌, List, [], ◌∷◌, ◌≡◌, inl, refl, leb, ◌==◌}
use liteiclink.Serdes.Pll.{Arithmetic, first_of, IsAnswer}
use liteiclink.Serdes.Pll.Quad as Quad
use liteiclink.Serdes.Pll.Gty as Gty
use liteiclink.Serdes.Pll.Ecp5 as Ecp5

abbrev hertz : Arithmetic
hertz = record {
  Freq = ℕ;
  times = λ f n. f * n;
  over = λ f n. f / n;
  at_most = leb;
  same = λ f g. f == g;
  mhz = λ n. n * 1000000;
}

-- 125 MHz cannot give 3 Gbps.
abbrev other_clocks : List ℕ
other_clocks = 187500000 ∷ 150000000 ∷ []

-- From 100 MHz the suggestions include 120 MHz, which is refused in its turn.
hundred_refused :
    Ecp5.compute_config hertz 100000000 3000000000
    ≡ inl (187500000 ∷ 150000000 ∷ 120000000 ∷ 240000000 ∷ [])
unfolding Ecp5.compute_config first_of
hundred_refused = refl

suggestion_refused : Ecp5.compute_config hertz 120000000 3000000000 ≡ inl other_clocks
unfolding Ecp5.compute_config first_of
suggestion_refused = refl

abbrev floats : Gty.Floats
floats = record {
  base = hertz;
  per = λ x y. x / y;
  mul = λ x y. x * y;
  whole = λ n. n;
  plus = λ x y. x + y;
  minus = λ x y. x - y;
  floor = λ x. x;
}

-- 156.25 MHz and 10 Gbps.
gty_quad_answers_example :
    Gty.IsCorrect floats 156250000 10000000000 (Gty.compute_config floats 156250000 10000000000)
gty_quad_answers_example = Gty.gty_quad_answers floats 156250000 10000000000

quad_answers_example :
    IsAnswer
      (Quad.IsConfig hertz Quad.ns_7series (Quad.IsVcoBand hertz) 125000000 5000000000)
      (Quad.gtx_quad_config hertz 125000000 5000000000)
    × IsAnswer
        (Quad.IsConfig hertz Quad.ns_7series (Quad.IsVcoBand hertz) 125000000 5000000000)
        (Quad.gth_quad_config hertz 125000000 5000000000)
    × IsAnswer
        (Quad.IsConfig hertz Quad.ns_ultrascale (Quad.IsQpll hertz) 125000000 5000000000)
        (Quad.gth3_quad_config hertz 125000000 5000000000)
    × IsAnswer
        (Quad.IsConfig hertz Quad.ns_ultrascale (Quad.IsQpll hertz) 125000000 5000000000)
        (Quad.gth4_quad_config hertz 125000000 5000000000)
quad_answers_example = Quad.quad_answers hertz 125000000 5000000000
