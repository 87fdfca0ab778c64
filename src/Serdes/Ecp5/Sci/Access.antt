-- ===== src/Serdes/Ecp5/Sci/Access.antt =====
-- Accesses through the registers `we`, `re`, `sel`, `adr` and `dat_w` while the circuit is paused, in
-- liteiclink/serdes/serdes_ecp5.py.
use liteiclink.Base.{
  ℕ, Bool, true, false, not, List, ◌∷◌, ◌++◌, ◌≡◌, refl, ap, ◌∙◌, clock, clock-append, replicate,
}
use liteiclink.Serdes.Ecp5.Sci.{Settings, Input}
use liteiclink.Serdes.Ecp5.Sci.Device.{SciDevice, System, system_next}
use liteiclink.Serdes.Ecp5.Sci.Rounds.{rest_at, rest_at-Resting, Resting}

module _ (dual : Bool) (c : Settings) (sel : Bool) (adr : ℕ) where
  -- A cycle in which the circuit is paused.
  abbrev pub paused : ℕ → Bool → Bool → Input
  paused dat_w we re = record {
    dual = dual;
    reset = false;
    settings = c;
    pause = true;
    sel = sel;
    we = we;
    re = re;
    adr = adr;
    dat_w = dat_w;
  }

  -- A pulse of `we` resp. `re`, and the three cycles of the access.
  abbrev pub writing : ℕ → List Input
  writing v = paused v true false ∷ replicate 3 (paused v false false)

  abbrev pub reading : ℕ → List Input
  reading v = paused v false true ∷ replicate 3 (paused v false false)

  module _ (D : SciDevice) where
    write_lem :
        (l x y z v : ℕ) (d : D.State)
        → clock (system_next D) (rest_at D l x y z d) (writing v)
          ≡ rest_at D 2 x y z (D.write d sel (not sel) adr v)
    unfolding system_next rest_at
    write_lem l x y z v d = refl

    read_lem :
        (l x y z v : ℕ) (d : D.State)
        → clock (system_next D) (rest_at D l x y z d) (reading v)
          ≡ (let w = D.read d sel (not sel) adr in rest_at D 1 x w w d)
    unfolding system_next rest_at
    read_lem l x y z v d = refl

    access_lem :
        (l x y z v u : ℕ) (d : D.State)
        → clock (system_next D) (rest_at D l x y z d) (writing v ++ reading u) ≡ (
            let e = D.write d sel (not sel) adr v in
            let w = D.read e sel (not sel) adr in rest_at D 1 x w w e)
    access_lem l x y z v u d =
        clock-append (system_next D) (rest_at D l x y z d) (writing v) (reading u)
        ∙ ap (λ s. clock (system_next D) s (reading u)) (write_lem l x y z v d)
        ∙ read_lem 2 x y z u (D.write d sel (not sel) adr v)

    -- While the circuit is paused between two rounds, a write access writes `dat_w` to the selected
    -- register and nothing else, and a read access of that register brings it to `dat_r`. Both end
    -- between two rounds.
    pub access_roundtrip :
        (s : System D) (v u : ℕ)
        → Resting D s
        → let t = clock (system_next D) s (writing v ++ reading u) in
          (t.core.status ≡ v) × (t.device ≡ D.write s.device sel (not sel) adr v) × Resting D t
    unfolding rest_at
    access_roundtrip s v u r =
        let p =
          ap (λ t. clock (system_next D) t (writing v ++ reading u)) (rest_at-Resting D s r)
          ∙ access_lem s.core.last_fsm_state s.core.data_r s.core.status s.core.sci.dat_r v u
              s.device in
        (
          ap (λ t. t.core.status) p ∙ D.read-write s.device sel (not sel) adr v,
          ap (λ t. t.device) p,
          record { at_idle = ap (λ t. t.core.fsm) p; sci_at_idle = ap (λ t. t.core.sci.fsm) p },
        )
