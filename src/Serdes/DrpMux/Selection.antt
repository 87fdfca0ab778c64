-- ===== src/Serdes/DrpMux/Selection.antt =====
-- The selected interface has the port, the others get nothing: DRPMux of
-- liteiclink/serdes/common.py.
use liteiclink.Base.{
  ℕ, zero, suc, ◌+◌, ◌≤◌, ◌<◌, List, [], ◌∷◌, some, length, ◌==◌, if◌then◌else◌, get_elem?, ◌≡◌,
  refl, sym, arith, ap, ◌∙◌,
}
use mathlib.Core.Option.{some-ne-none}
use liteiclink.Serdes.DrpMux.{Master, Slave, no_slave, mux_port, mux_back, add_interface, finalize}

port-selected :
    (ms : List Master) (sel : ℕ) (m : Master) → get_elem? ms sel ≡ some m → mux_port sel ms ≡ m
unfolding mux_port
port-selected [] sel m h = absurd (some-ne-none m (sym h))
port-selected (x ∷ xs) zero m h = grind arith
port-selected (x ∷ xs) (suc sel) m h = port-selected xs sel m h

back-at :
    (i sel j : ℕ) (answer : Slave) (ms : List Master)
    → j < length ms
    → get_elem? (mux_back i sel answer ms) j ≡ some (if sel == i + j then answer else no_slave)
unfolding mux_back
back-at i sel j answer [] h = absurd (omega arith)
back-at i sel zero answer (x ∷ xs) h =
    let e : i ≡ i + 0 = omega arith in ap (λ k. some (if sel == k then answer else no_slave)) e
back-at i sel (suc j) answer (x ∷ xs) h =
    let e : i + 1 + j ≡ i + suc j = omega arith in
    back-at (i + 1) sel j answer xs (omega arith)
    ∙ ap (λ k. some (if sel == k then answer else no_slave)) e

length-added : (m : Master) (ms : List Master) → length (add_interface m ms) ≡ suc (length ms)
unfolding add_interface
length-added m [] = refl
length-added m (x ∷ xs) = ap suc (length-added m xs)

last-added : (m : Master) (ms : List Master) → get_elem? (add_interface m ms) (length ms) ≡ some m
unfolding add_interface
last-added m [] = refl
last-added m (x ∷ xs) = last-added m xs

finalizes : (ms : List Master) → length ms ≤ 16 → finalize ms ≡ some ms
unfolding finalize
finalizes ms h = ground arith

-- A multiplexer of fewer than 16 interfaces takes another one, whose number is the count of those
-- before: where `sel` is that number, the port is driven by the new interface, and of all the
-- interfaces it alone gets the answer of the port, the others an idle one.
pub added_selected :
    (m : Master) (ms : List Master) (answer : Slave) (j : ℕ)
    → length ms < 16
    → j ≤ length ms
    → (finalize (add_interface m ms) ≡ some (add_interface m ms))
      × (mux_port (length ms) (add_interface m ms) ≡ m)
      × (get_elem? (mux_back 0 (length ms) answer (add_interface m ms)) j
          ≡ some (if length ms == j then answer else no_slave))
added_selected m ms answer j h g =
    let e = length-added m ms in
    (
      finalizes _ (omega arith),
      port-selected (add_interface m ms) (length ms) m (last-added m ms),
      back-at 0 (length ms) j answer (add_interface m ms) (omega arith)
          ∙ ap (λ k. some (if length ms == k then answer else no_slave)) (omega arith),
    )
