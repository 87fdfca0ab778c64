-- ===== src/Serwb/Link.antt =====
-- SERWBPHY of liteiclink/serwb/genphy.py and of liteiclink/serwb/phy.py: its choice of the serializer
-- and its data path.
pub mod Words
pub mod Gaps
pub mod Devices
use liteiclink.Base.{
  ℕ, zero, suc, Bool, true, false, not, ◌&&◌, ◌||◌, ◌==◌, List, [], ◌∷◌, if◌then◌else◌,
}

-- `init.ready`, the sink, the serializers (`tx.sink.ready`, `rx.source`) and `source.ready`.
pub record PhyIn : Type 0 where
  pub init_ready : Bool
  pub valid : Bool
  pub word : ℕ
  pub tx_ready : Bool
  pub rx_valid : Bool
  pub rx_word : ℕ
  pub ready : Bool

-- `tx.sink.data` (`tx.sink.valid` is 1), `sink.ready`, `source.valid`, `source.data`,
-- `rx.source.ready` and `control.prbs_error`.
pub record PhyOut : Type 0 where
  pub tx_word : ℕ
  pub sink_ready : Bool
  pub source_valid : Bool
  pub source_word : ℕ
  pub rx_ready : Bool
  pub prbs_error : Bool

-- In genphy.py the receiver is always taken from; in phy.py only when the source is, once the link is
-- up.
pub data Phy : Type 0 where
  generic vendor : Phy

unfoldable pub receives : Phy → PhyIn → Bool
receives generic n = true
receives vendor n = if n.init_ready then n.ready else true

unfoldable pub phy_out : Phy → PhyIn → PhyOut
unfolding receives
phy_out p n =
    let valid = n.init_ready && n.rx_valid in
    let word = if n.init_ready then n.rx_word else 0 in
    record {
      tx_word = if n.init_ready && n.valid then n.word else 0;
      sink_ready = n.init_ready && n.valid && n.tx_ready;
      source_valid = valid;
      source_word = word;
      rx_ready = receives p n;
      prbs_error = valid && n.ready && not (word == 0);
    }

-- The choice by the name of the device, whose characters are given by their codes.
pub data Serializer : Type 0 where
  ku s7 efinix : Serializer

pub data Choice : Type 0 where
  chosen : Serializer → ℕ → Choice
  assertion_error not_implemented : Choice

-- `device[:n]`
unfoldable pub prefix : ℕ → List ℕ → List ℕ
prefix zero cs = []
prefix (suc n) [] = []
prefix (suc n) (c ∷ cs) = c ∷ prefix n cs

unfoldable pub same_text : List ℕ → List ℕ → Bool
same_text [] [] = true
same_text (a ∷ x) (b ∷ y) = a == b && same_text x y
same_text _ _ = false

unfoldable pub one_of : List ℕ → List (List ℕ) → Bool
unfolding same_text
one_of x [] = false
one_of x (y ∷ ys) = same_text x y || one_of x ys

abbrev pub ku_names : List (List ℕ)
ku_names =
    (b'x' ∷ b'c' ∷ b'k' ∷ b'u' ∷ [])
    ∷ (b'x' ∷ b'v' ∷ b'u' ∷ [])
    ∷ (b'x' ∷ b'c' ∷ b'z' ∷ b'u' ∷ [])
    ∷ []

abbrev pub s7_names : List (List ℕ)
s7_names =
    (b'x' ∷ b'c' ∷ b'7' ∷ b'a' ∷ [])
    ∷ (b'x' ∷ b'c' ∷ b'7' ∷ b'k' ∷ [])
    ∷ (b'x' ∷ b'c' ∷ b'7' ∷ b'v' ∷ [])
    ∷ (b'x' ∷ b'c' ∷ b'7' ∷ b'z' ∷ [])
    ∷ []

-- `one_to_one` tells whether `clk_ratio` is "1:1".
unfoldable pub choose : List ℕ → Bool → Choice
unfolding prefix one_of
choose device one_to_one =
    if one_of (prefix 4 device) ku_names
    then if one_to_one then chosen ku 512 else assertion_error
    else if one_of (prefix 4 device) s7_names
    then if one_to_one then chosen s7 32 else assertion_error
    else if one_of (prefix 2 device) ((b'T' ∷ b'i' ∷ []) ∷ [])
    then chosen efinix 64
    else if one_of (prefix 2 device) ((b'T' ∷ b'1' ∷ []) ∷ (b'T' ∷ b'2' ∷ []) ∷ [])
    then chosen efinix 4
    else not_implemented
