-- ===== src/Base/Integer.antt =====
-- Go's signed `int`, where the source compares it with a constant.
use Prim.Native.Nat.{ℕ, ◌≤◌, ◌-◌, ◌%◌, ◌^◌}
use mathlib.Core.Bool.{Bool, true, false}
use mathlib.Core.Path.{ap}
use native.Mathlib.Decide.{ℕ_discrete}
use go_firecracker_container.Base.Equality.{ltb, Eq, if◌then◌else◌}

-- `negsuc n` is -(n + 1).
pub data ℤ : Type 0 where
  pos : ℕ → ℤ
  negsuc : ℕ → ℤ

-- `z < n` and `n < z` for a constant `n`.
abbrev pub is_below : ℤ → ℕ → Bool
is_below (pos m) n = ltb m n
is_below (negsuc m) n = true

abbrev pub is_above : ℤ → ℕ → Bool
is_above (pos m) n = ltb n m
is_above (negsuc m) n = false

int_dec : Discrete ℤ
int_dec (pos m) (pos n) = elim (ℕ_discrete m n) [ yes p ↦ yes (ap pos p) | no d ↦ no (λ p. d (cc)) ]
int_dec (pos m) (negsuc n) = no (λ p. cc)
int_dec (negsuc m) (pos n) = no (λ p. cc)
int_dec (negsuc m) (negsuc n) = elim (ℕ_discrete m n) [
  | yes p ↦ yes (ap negsuc p)
  | no d ↦ no (λ p. d (cc))
]

instance unfoldable pub int_eq : Eq ℤ
unfolding int_dec
int_eq = record { dec = int_dec }

-- The integer lies between two numbers.
abbrev pub IsWithin : ℕ → ℕ → ℤ → Type 0
IsWithin lo hi (pos n) = (lo ≤ n) × (n ≤ hi)
IsWithin lo hi (negsuc n) = ⊥

-- Go's conversions `int32(n)` of a length, and `uint64(z)`: both wrap.
unfoldable pub to_int32 : ℕ → ℤ
to_int32 n =
    let bits = n % 2 ^ 32 in if ltb bits (2 ^ 31) then pos bits else negsuc (2 ^ 32 - 1 - bits)

unfoldable pub to_uint64 : ℤ → ℕ
to_uint64 (pos n) = n % 2 ^ 64
to_uint64 (negsuc n) = 2 ^ 64 - 1 - n % 2 ^ 64
