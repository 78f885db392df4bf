-- ===== src/Network/ShortId.antt =====
-- `shortID` of internal/network/firewall.go: the 32-bit FNV-1a hash of an id, as eight hexadecimal
-- digits. `hash/fnv` and `%08x` are Go's standard library.
pub mod Laws
use Prim.Native.Nat.{bit_xor}
use go_firecracker_container.Base.{
  ℕ, zero, suc, ◌+◌, ◌-◌, ◌*◌, ◌/◌, ◌%◌, ◌^◌, List, [], ◌∷◌, ◌++◌, ltb, if◌then◌else◌,
}
use go_firecracker_container.Base.Text.{Text}

-- One round of FNV-1a: a byte is mixed in, and the product wraps at 2 ^ 32.
fnv_step : ℕ → ℕ → ℕ
fnv_step h b = bit_xor h b * 16777619 % 2 ^ 32

fnv_from : ℕ → Text → ℕ
fnv_from h [] = h
fnv_from h (b ∷ s) = fnv_from (fnv_step h b) s

-- `fnv.New32a`, `Write`, `Sum32`
unfoldable pub fnv32a : Text → ℕ
unfolding fnv_from fnv_step
fnv32a s = fnv_from 2166136261 s

hex_digit : ℕ → ℕ
hex_digit d = if ltb d 10 then b'0' + d else b'a' + d - 10

-- The lowest `w` hexadecimal digits, most significant first.
hex : ℕ → ℕ → Text
hex zero n = []
hex (suc w) n = hex w (n / 16) ++ hex_digit (n % 16) ∷ []

unfoldable pub short_id : Text → Text
unfolding hex hex_digit
short_id id = hex 8 (fnv32a id)
