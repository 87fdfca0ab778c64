-- ===== src/Serwb/Core.antt =====
-- The endpoints of SERWBCore in liteiclink/serwb/core.py, and their selection by port.
pub mod Ports
pub mod Routing
use liteiclink.Base.{
  ℕ, ◌+◌, Bool, true, false, ◌||◌, List, [], ◌∷◌, ◌++◌, Option, some, none, ◌==◌, if◌then◌else◌,
}

-- A dictionary in the order of insertion.
module _ {E : Type 0} where
  unfoldable pub lookup : ℕ → List (ℕ × E) → Option E
  lookup k [] = none
  lookup k ((j, e) ∷ m) = if k == j then some e else lookup k m

  -- `port in endpoints.keys()`
  unfoldable pub has_key : ℕ → List (ℕ × E) → Bool
  has_key k [] = false
  has_key k ((j, e) ∷ m) = k == j || has_key k m

  -- `If(port == k, sel.eq(i))` for each endpoint: the last that applies counts.
  unfoldable pub sel_from : ℕ → ℕ → ℕ → List (ℕ × E) → ℕ
  sel_from port i sel [] = sel
  sel_from port i sel ((k, e) ∷ m) = sel_from port (i + 1) (if port == k then i else sel) m

module _ (E : Type 0) where
  pub record Core : Type 0 where
    pub downstream_endpoints : List (ℕ × E)
    pub upstream_endpoints : List (ℕ × E)

  -- `port_exists` is the ValueError.
  pub data Added : Type 0 where
    added : Core → Added
    port_exists : ℕ → Added

  unfoldable pub add_downstream_endpoint : ℕ → E → Core → Added
  unfolding has_key
  add_downstream_endpoint port e c =
      if has_key port c.downstream_endpoints
      then port_exists port
      else added (record c { downstream_endpoints = c.downstream_endpoints ++ ((port, e) ∷ []) })

  unfoldable pub add_upstream_endpoint : ℕ → E → Core → Added
  unfolding has_key
  add_upstream_endpoint port e c =
      if has_key port c.upstream_endpoints
      then port_exists port
      else added (record c { upstream_endpoints = c.upstream_endpoints ++ ((port, e) ∷ []) })

  -- `SERWBCore.__init__`, whose first endpoints are those of Etherbone.
  abbrev pub new_core : ℕ → E → E → Core
  new_core port source sink = record {
    downstream_endpoints = (port, source) ∷ [];
    upstream_endpoints = (port, sink) ∷ [];
  }

  -- `dispatcher.sel`
  unfoldable pub sel : ℕ → Core → ℕ
  unfolding sel_from
  sel port c = sel_from port 0 0 c.upstream_endpoints
