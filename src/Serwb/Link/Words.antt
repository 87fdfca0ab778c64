-- ===== src/Serwb/Link/Words.antt =====
-- The words through SERWBPHY of liteiclink/serwb/genphy.py and liteiclink/serwb/phy.py over the cycles
-- in which the link is up.
use liteiclink.Base.{
  ℕ, ◌+◌, Bool, true, not, ◌&&◌, List, [], ◌∷◌, ◌≡◌, refl, arith, All, if◌then◌else◌, length,
  count_if, Option, some, none,
}
use liteiclink.Serwb.Link.{PhyIn, Phy, generic, vendor, phy_out}

abbrev pub IsUp : PhyIn → Type 0
IsUp n = n.init_ready ≡ true

-- The words that the transmitter takes, and those that the PHY takes from its sink.
abbrev pub line : Phy → List PhyIn → List ℕ
line p [] = []
line p (n ∷ ns) = if n.tx_ready then (phy_out p n).tx_word ∷ line p ns else line p ns

-- For each word that the transmitter takes, the word that the sink presents or none.
abbrev pub presented : List PhyIn → List (Option ℕ)
presented [] = []
presented (n ∷ ns) =
    if n.tx_ready then (if n.valid then some n.word else none) ∷ presented ns else presented ns

abbrev pub taken : Phy → List PhyIn → List ℕ
taken p [] = []
taken p (n ∷ ns) = if n.valid && (phy_out p n).sink_ready then n.word ∷ taken p ns else taken p ns

-- Nothing to send is sent as 0.
abbrev pub fill : List (Option ℕ) → List ℕ
fill [] = []
fill (some w ∷ ws) = w ∷ fill ws
fill (none ∷ ws) = 0 ∷ fill ws

abbrev pub words_of : List (Option ℕ) → List ℕ
words_of [] = []
words_of (some w ∷ ws) = w ∷ words_of ws
words_of (none ∷ ws) = words_of ws

-- While the link is up the words presented are all taken, each as the transmitter takes one, and the
-- line carries them in order with a 0 wherever none is presented.
pub line-fill :
    (p : Phy) (ns : List PhyIn)
    → All IsUp ns
    → (line p ns ≡ fill (presented ns)) × (taken p ns ≡ words_of (presented ns))
unfolding phy_out
line-fill p [] a = (refl, refl)
line-fill p (n ∷ ns) (u, a) = ground (arith, line-fill p ns a)

-- The words that the PHY takes from the receiver, and those that its source hands on.
abbrev pub arrived : Phy → List PhyIn → List ℕ
arrived p [] = []
arrived p (n ∷ ns) =
    if n.rx_valid && (phy_out p n).rx_ready then n.rx_word ∷ arrived p ns else arrived p ns

abbrev pub handed_on : Phy → List PhyIn → List ℕ
handed_on p [] = []
handed_on p (n ∷ ns) =
    if (phy_out p n).source_valid && n.ready
    then (phy_out p n).source_word ∷ handed_on p ns
    else handed_on p ns

abbrev pub is_lost : PhyIn → Bool
is_lost n = n.rx_valid && not n.ready

-- While the link is up the vendor PHY hands on every word that it takes from the receiver; the
-- generic PHY loses one for every cycle in which a word arrives and its source is not ready.
pub handed_on-arrived :
    (ns : List PhyIn)
    → All IsUp ns
    → (handed_on vendor ns ≡ arrived vendor ns)
      × (length (arrived generic ns) ≡ length (handed_on generic ns) + count_if is_lost ns)
unfolding phy_out
handed_on-arrived [] a = (refl, omega arith)
handed_on-arrived (n ∷ ns) (u, a) = ground (arith, handed_on-arrived ns a)
