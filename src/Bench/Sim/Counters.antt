-- ===== src/Bench/Sim/Counters.antt =====
-- What the checker of bench/serwb/sim.py finds out.
use liteiclink.Base.{
  ℕ, zero, suc, ◌+◌, ◌-◌, ◌^◌, ◌<◌, Bool, true, false, ◌&&◌, ◌||◌, ◌==◌, List, [], ◌∷◌, ◌++◌, ◌≡◌,
  ◌↔◌, refl, arith, ◌∙◌, All, length, if◌then◌else◌,
}
use liteiclink.Bench.Sim.{
  u32, Generator, GeneratorIn, generator_next, Checker, CheckerIn, checker_takes, checker_error,
  checker_next, generator_reset, checker_reset,
}

-- The numbers of 32 bits from `w` on.
abbrev pub count_from : ℕ → ℕ → List ℕ
count_from w zero = []
count_from w (suc n) = w ∷ count_from (u32 (w + 1)) n

-- The words that the link takes from the generator, and those that the checker takes.
abbrev pub sent : Generator → List GeneratorIn → List ℕ
sent s [] = []
sent s (n ∷ ns) =
    let rest = sent (generator_next s n) ns in if s.valid && n.ready then s.word ∷ rest else rest

abbrev pub taken : Checker → List CheckerIn → List ℕ
taken s [] = []
taken s (n ∷ ns) =
    let rest = taken (checker_next s n) ns in if checker_takes s n then n.word ∷ rest else rest

abbrev pub reports : Checker → List CheckerIn → Bool
reports s [] = false
reports s (n ∷ ns) = checker_error s n || reports (checker_next s n) ns

sent_lem :
    (s : Generator) (ns : List GeneratorIn) → sent s ns ≡ count_from s.word (length (sent s ns))
unfolding generator_next
sent_lem s [] = refl
sent_lem s (n ∷ ns) = ground (arith, sent_lem (generator_next s n) ns)

abbrev pub IsWord : CheckerIn → Type 0
IsWord n = n.word < 2 ^ 32

follows :
    (w last : ℕ)
    → w < 2 ^ 32
    → last < 2 ^ 32
    → ((u32 (w + 2 ^ 32 - 1) == last) ≡ true) ↔ (w ≡ u32 (last + 1))
follows w last h g = ground arith

keeps-last :
    (s : Checker) (n : CheckerIn) → s.last < 2 ^ 32 → IsWord n → (checker_next s n).last < 2 ^ 32
unfolding checker_next
keeps-last s n h g = ground arith

-- The checker reports no error just where the words that it takes count on from the last one.
pub checker_exact :
    (s : Checker) (ns : List CheckerIn)
    → s.last < 2 ^ 32
    → All IsWord ns
    → (reports s ns ≡ false) ↔ (taken s ns ≡ count_from (u32 (s.last + 1)) (length (taken s ns)))
unfolding checker_next checker_error
checker_exact s [] h a = (λ _. refl, λ _. refl)
checker_exact s (n ∷ ns) h (g, a) =
    ground
      (arith, checker_exact (checker_next s n) ns (keeps-last s n h g) a, follows n.word s.last g h)

count_from-prefix :
    (w n : ℕ) (xs rest : List ℕ) → xs ++ rest ≡ count_from w n → xs ≡ count_from w (length xs)
count_from-prefix w n [] rest h = refl
count_from-prefix w zero (x ∷ xs) rest h = absurd cc
count_from-prefix w (suc n) (x ∷ xs) rest h =
    ground (arith, count_from-prefix (u32 (w + 1)) n xs rest)

IsWord-checker_reset : checker_reset.last < 2 ^ 32
IsWord-checker_reset = omega arith

-- Over a link that loses, adds and changes no word, a checker reports no error about the words of a
-- generator, both from reset, however their cycles lie and whatever is still on its way.
pub counters_agree :
    (gs : List GeneratorIn) (cs : List CheckerIn) (rest : List ℕ)
    → All IsWord cs
    → taken checker_reset cs ++ rest ≡ sent generator_reset gs
    → reports checker_reset cs ≡ false
counters_agree gs cs rest a h = (checker_exact checker_reset cs IsWord-checker_reset a).1 (
    count_from-prefix 0 (length (sent generator_reset gs)) (taken checker_reset cs) rest
      (h ∙ sent_lem generator_reset gs))
