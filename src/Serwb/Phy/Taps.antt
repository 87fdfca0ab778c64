-- ===== src/Serwb/Phy/Taps.antt =====
-- Arithmetic of the delay taps in liteiclink/serwb/phy.py, on registers that hold values below `taps`.
use liteiclink.Base.{ℕ, ◌+◌, ◌-◌, ◌%◌, ◌≤◌, ◌<◌, ◌≡◌, ◌≢◌, ap, arith}
use mathlib.Core.Path.{◌≡⟨◌⟩◌, ◌∎}
use native.Mathlib.Nat.{mod-eq_of_lt, mod-eq-sub-mod}

pub inc_fits : (d taps : ℕ) → d < taps → d ≢ taps - 1 → (d + 1) % taps ≡ d + 1
inc_fits d taps h e = mod-eq_of_lt (omega arith)

pub window_lem : (hi lo taps : ℕ) → lo ≤ hi → hi < taps → (hi + taps - lo) % taps ≡ hi - lo
window_lem hi lo taps l h =
    (hi + taps - lo) % taps
    ≡⟨ ap (λ t. t % taps) (let e : hi + taps - lo ≡ hi - lo + taps = omega arith in e) ⟩
      (hi - lo + taps) % taps
    ≡⟨ mod-eq-sub-mod (omega arith) ⟩ (hi - lo + taps - taps) % taps
    ≡⟨ ap (λ t. t % taps) (let e : hi - lo + taps - taps ≡ hi - lo = omega arith in e) ⟩
      (hi - lo) % taps
    ≡⟨ mod-eq_of_lt (omega arith) ⟩ hi - lo ∎
