-- ===== src/Sandbox/Ports/Keys.antt =====
-- The key of a port in the reservations.
use go_firecracker_container.Base.{◌≡◌, ap₂, ◌↔◌, ◌∷◌, ◌++◌}
use go_firecracker_container.Base.Text.{Text}
use go_firecracker_container.Base.Integer.{ℤ}
use go_firecracker_container.Base.Decimal.{format_int}
use go_firecracker_container.Base.Decimal.Laws.{slashed-injective}
use go_firecracker_container.Sandbox.Ports.{normalize_proto, port_key}

-- Two ports have one key exactly when they have one number and, normalised, one protocol.
pub port_key-eq_iff :
    (y z : ℤ) (proto other : Text)
    → (port_key y proto ≡ port_key z other)
      ↔ ((y ≡ z) × (normalize_proto proto ≡ normalize_proto other))
unfolding port_key
port_key-eq_iff y z proto other =
    (λ e. slashed-injective y z _ _ e, λ h. ap₂ (λ port p. format_int port ++ b'/' ∷ p) h.0 h.1)
