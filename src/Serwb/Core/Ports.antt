-- ===== src/Serwb/Core/Ports.antt =====
-- The dictionaries of endpoints of liteiclink/serwb/core.py.
use liteiclink.Base.{
  ℕ, suc, ◌+◌, true, false, ◌||◌, List, [], ◌∷◌, ◌++◌, Option, some, none, ◌==◌, if◌then◌else◌, ◌≡◌,
  ◌≢◌, refl, arith, ◌∙◌, get_elem?, Bool-cases, inl, inr,
}
use liteiclink.Serwb.Core.{
  Core, Added, added, port_exists, lookup, has_key, sel_from, add_upstream_endpoint,
  add_downstream_endpoint, new_core, sel,
}

module _ {E : Type 0} where
  -- No port has two endpoints.
  abbrev pub IsUnique : List (ℕ × E) → Type 0
  IsUnique [] = Unit
  IsUnique ((k, e) ∷ m) = (has_key k m ≡ false) × IsUnique m

  pub has_key-lookup : (k : ℕ) (m : List (ℕ × E)) → has_key k m ≡ false → lookup k m ≡ none
  unfolding has_key lookup
  has_key-lookup k [] h = refl
  has_key-lookup k ((j, e) ∷ m) h = ground (arith, has_key-lookup k m)

  pub lookup-has_key : (k : ℕ) (m : List (ℕ × E)) → has_key k m ≡ true → lookup k m ≢ none
  unfolding has_key lookup
  lookup-has_key k [] h = cc
  lookup-has_key k ((j, e) ∷ m) h = ground (arith, lookup-has_key k m)

  pub lookup-insert :
      (j k : ℕ) (e : E) (m : List (ℕ × E))
      → has_key k m ≡ false
      → lookup j (m ++ ((k, e) ∷ [])) ≡ (if j == k then some e else lookup j m)
  unfolding has_key lookup
  lookup-insert j k e [] h = refl
  lookup-insert j k e ((i, f) ∷ m) h = ground (arith, lookup-insert j k e m)

  has_key-insert :
      (j k : ℕ) (e : E) (m : List (ℕ × E))
      → has_key j (m ++ ((k, e) ∷ [])) ≡ (j == k || has_key j m)
  unfolding has_key
  has_key-insert j k e [] = refl
  has_key-insert j k e ((i, f) ∷ m) = ground (arith, has_key-insert j k e m)

  pub insert-IsUnique :
      (k : ℕ) (e : E) (m : List (ℕ × E))
      → has_key k m ≡ false
      → IsUnique m
      → IsUnique (m ++ ((k, e) ∷ []))
  unfolding has_key
  insert-IsUnique k e [] h u = (refl, tt)
  insert-IsUnique k e ((j, f) ∷ m) h (n, u) =
      (ground (arith, has_key-insert j k e m), insert-IsUnique k e m (ground arith) u)

  -- Where the selection ends, for a port that has an endpoint and for one that has none.
  sel_from-none : (k i s : ℕ) (m : List (ℕ × E)) → has_key k m ≡ false → sel_from k i s m ≡ s
  unfolding has_key sel_from
  sel_from-none k i s [] h = refl
  sel_from-none k i s ((j, e) ∷ m) h = ground (arith, sel_from-none k (i + 1) s m)

  sel_from-some :
      (k i s : ℕ) (e : E) (m : List (ℕ × E))
      → IsUnique m
      → lookup k m ≡ some e
      → (d : ℕ) × (sel_from k i s m ≡ i + d) × (get_elem? m d ≡ some (k, e))
  unfolding lookup sel_from
  sel_from-some k i s e [] u h = ground arith
  sel_from-some k i s e ((j, f) ∷ m) (n, u) h = elim (Bool-cases (k == j)) [
    | inl p ↦ (0, ground (arith, sel_from-none k (i + 1) i m), ground arith)
    | inr p ↦
        let (d, q, g) = sel_from-some k (i + 1) s e m u (ground arith) in (suc d, ground arith, g)
  ]

  -- What the selection finds: the endpoint of the port if it has one, else the first.
  abbrev pub Selects : ℕ → List (ℕ × E) → ℕ → Option E → Type 0
  Selects port m i (some e) = get_elem? m i ≡ some (port, e)
  Selects port m i none = i ≡ 0

  select :
      (k : ℕ) (m : List (ℕ × E)) (o : Option E)
      → IsUnique m
      → lookup k m ≡ o
      → Selects k m (sel_from k 0 0 m) o
  select k m none u h = elim (Bool-cases (has_key k m)) [
    | inl p ↦ absurd (lookup-has_key k m p h)
    | inr p ↦ sel_from-none k 0 0 m p
  ]
  select k m (some e) u h =
      let (d, q, g) = sel_from-some k 0 0 e m u h in
      rw (q ∙ (let z : 0 + d ≡ d = omega arith in z)) g

module _ {E : Type 0} where
  -- Both dictionaries of a core.
  pub record IsValid (c : Core E) : Type 0 where
    pub downstream : IsUnique c.downstream_endpoints
    pub upstream : IsUnique c.upstream_endpoints

  pub new_core-IsValid : (port : ℕ) (source sink : E) → IsValid (new_core E port source sink)
  unfolding has_key
  new_core-IsValid port source sink = record { downstream = (refl, tt); upstream = (refl, tt) }

  -- The results that an addition of an endpoint `e` for `port` may have.
  abbrev pub AddsUpstream : ℕ → E → Core E → Added E → Type 0
  AddsUpstream port e c (added d) =
      (lookup port c.upstream_endpoints ≡ none)
      × ((j : ℕ)
          → lookup j d.upstream_endpoints
            ≡ (if j == port then some e else lookup j c.upstream_endpoints))
      × (d.downstream_endpoints ≡ c.downstream_endpoints)
      × IsValid d
  AddsUpstream port e c (port_exists p) = (lookup port c.upstream_endpoints ≢ none) × (p ≡ port)

  abbrev pub AddsDownstream : ℕ → E → Core E → Added E → Type 0
  AddsDownstream port e c (added d) =
      (lookup port c.downstream_endpoints ≡ none)
      × ((j : ℕ)
          → lookup j d.downstream_endpoints
            ≡ (if j == port then some e else lookup j c.downstream_endpoints))
      × (d.upstream_endpoints ≡ c.upstream_endpoints)
      × IsValid d
  AddsDownstream port e c (port_exists p) = (lookup port c.downstream_endpoints ≢ none) × (p ≡ port)

  -- An upstream endpoint is added if and only if the port has none. Then it is what the port has,
  -- nothing else changes, and no port has two endpoints; else the error names the port.
  pub add_upstream_endpoint_lem :
      (port : ℕ) (e : E) (c : Core E)
      → IsValid c
      → AddsUpstream port e c (add_upstream_endpoint E port e c)
  unfolding add_upstream_endpoint
  add_upstream_endpoint_lem port e c v = elim (Bool-cases (has_key port c.upstream_endpoints)) [
    | inl p ↦ rw p (lookup-has_key port c.upstream_endpoints p, refl)
    | inr p ↦ rw p (
      has_key-lookup port c.upstream_endpoints p,
      λ j. lookup-insert j port e c.upstream_endpoints p,
      refl,
      record {
        downstream = v.downstream;
        upstream = insert-IsUnique port e c.upstream_endpoints p v.upstream;
      },
    )
  ]

  -- The same for a downstream endpoint.
  pub add_downstream_endpoint_lem :
      (port : ℕ) (e : E) (c : Core E)
      → IsValid c
      → AddsDownstream port e c (add_downstream_endpoint E port e c)
  unfolding add_downstream_endpoint
  add_downstream_endpoint_lem port e c v = elim (Bool-cases (has_key port c.downstream_endpoints)) [
    | inl p ↦ rw p (lookup-has_key port c.downstream_endpoints p, refl)
    | inr p ↦ rw p (
      has_key-lookup port c.downstream_endpoints p,
      λ j. lookup-insert j port e c.downstream_endpoints p,
      refl,
      record {
        downstream = insert-IsUnique port e c.downstream_endpoints p v.downstream;
        upstream = v.upstream;
      },
    )
  ]

  -- `dispatcher.sel` is the place of the endpoint of the port if it has one, else 0.
  pub sel-Selects :
      (port : ℕ) (c : Core E)
      → IsValid c
      → Selects port c.upstream_endpoints (sel E port c) (lookup port c.upstream_endpoints)
  unfolding sel
  sel-Selects port c v = select port c.upstream_endpoints _ v.upstream refl
