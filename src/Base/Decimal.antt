-- ===== src/Base/Decimal.antt =====
-- `%d` of an `int`.
pub mod Laws
use Prim.Native.Nat.{ℕ, zero, suc, ◌+◌, ◌/◌, ◌%◌}
use mathlib.Core.List.{[], ◌∷◌, ◌++◌}
use go_firecracker_container.Base.Equality.{ltb, if◌then◌else◌}
use go_firecracker_container.Base.Text.{Text}
use go_firecracker_container.Base.Integer.{ℤ, pos, negsuc}

-- The digits of `n`, most significant first, for fuel that exceeds `n`.
digits : ℕ → ℕ → Text
digits zero n = []
digits (suc fuel) n =
    let more = digits fuel (n / 10) ++ (b'0' + n % 10) ∷ [] in
    if ltb n 10 then (b'0' + n) ∷ [] else more

unfoldable pub format_nat : ℕ → Text
unfolding digits
format_nat n = digits (suc n) n

unfoldable pub format_int : ℤ → Text
unfolding format_nat
format_int (pos n) = format_nat n
format_int (negsuc n) = b'-' ∷ format_nat (suc n)
