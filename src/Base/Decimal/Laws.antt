-- ===== src/Base/Decimal/Laws.antt =====
-- A decimal numeral determines its number, and holds no separator.
use go_firecracker_container.Base.Equality.{ltb, Bool-cases}
use go_firecracker_container.Base.Lists.{All, All-append}
use go_firecracker_container.Base.Text.{Text}
use go_firecracker_container.Base.Integer.{ℤ, pos, negsuc}
use go_firecracker_container.Base.Decimal.{digits, format_nat, format_int}
use Prim.Native.Nat.{ℕ, zero, suc, ◌+◌, ◌-◌, ◌*◌, ◌/◌, ◌≤◌, ◌<◌}
use mathlib.Core.List.{[], ◌∷◌, ◌++◌}
use mathlib.Core.Path.{◌≡◌, refl, sym, ap, ◌∙◌}
use mathlib.Core.Logic.{inl, inr, ◌≢◌}
use native.Mathlib.Omega.{arith}

abbrev decimal_value : ℕ → Text → ℕ
decimal_value acc [] = acc
decimal_value acc (b ∷ s) = decimal_value (acc * 10 + (b - b'0')) s

decimal_value-append :
    (acc : ℕ) (s t : Text) → decimal_value acc (s ++ t) ≡ decimal_value (decimal_value acc s) t
decimal_value-append acc [] t = refl
decimal_value-append acc (b ∷ s) t = decimal_value-append (acc * 10 + (b - b'0')) s t

decimal_value-digits : (fuel n : ℕ) → n < fuel → decimal_value 0 (digits fuel n) ≡ n
unfolding digits
decimal_value-digits zero n h = elim h [ ]
decimal_value-digits (suc fuel) n h = elim (Bool-cases (ltb n 10)) [
  | inl small ↦ rw small (omega arith)
  | inr big ↦
      rw (big, decimal_value-append, decimal_value-digits fuel (n / 10) (ground arith))
        (omega arith)
]

decimal_value-format_nat : (n : ℕ) → decimal_value 0 (format_nat n) ≡ n
unfolding format_nat
decimal_value-format_nat n = decimal_value-digits (suc n) n (omega arith)

abbrev IsDigit : ℕ → Type 0
IsDigit b = (b'0' ≤ b) × (b ≤ b'9')

digits-IsDigit : (fuel n : ℕ) → All IsDigit (digits fuel n)
unfolding digits
digits-IsDigit zero n = tt
digits-IsDigit (suc fuel) n = elim (Bool-cases (ltb n 10)) [
  | inl small ↦ rw small ((omega arith, ground arith), tt)
  | inr big ↦ rw big (
      All-append IsDigit (digits fuel (n / 10)) _ (digits-IsDigit fuel (n / 10))
        ((omega arith, omega arith), tt))
]

-- No byte of the numeral of an `int` is a slash.
abbrev NoSlash : Text → Type 0
NoSlash = All (λ b. b ≢ b'/')

NoSlash-of_digits : (s : Text) → All IsDigit s → NoSlash s
NoSlash-of_digits [] h = tt
NoSlash-of_digits (b ∷ s) (d, h) = (omega arith, NoSlash-of_digits s h)

format_int-NoSlash : (z : ℤ) → NoSlash (format_int z)
unfolding format_int format_nat
format_int-NoSlash (pos n) = NoSlash-of_digits _ (digits-IsDigit (suc n) n)
format_int-NoSlash (negsuc n) =
    (omega arith, NoSlash-of_digits _ (digits-IsDigit (suc (suc n)) (suc n)))

head-ne_minus : (s : Text) → All IsDigit s → (t : Text) → s ≢ b'-' ∷ t
head-ne_minus [] h t e = cc
head-ne_minus (b ∷ s) (d, h) t e = let same : b ≡ b'-' = cc in omega arith

format_nat-ne_minus : (n : ℕ) (t : Text) → format_nat n ≢ b'-' ∷ t
unfolding format_nat
format_nat-ne_minus n = head-ne_minus _ (digits-IsDigit (suc n) n)

format_nat-injective : (m n : ℕ) → format_nat m ≡ format_nat n → m ≡ n
format_nat-injective m n e =
    sym (decimal_value-format_nat m) ∙ (ap (decimal_value 0) e ∙ decimal_value-format_nat n)

pub format_int-injective : (y z : ℤ) → format_int y ≡ format_int z → y ≡ z
unfolding format_int
format_int-injective (pos m) (pos n) e = ap pos (format_nat-injective m n e)
format_int-injective (pos m) (negsuc n) e = absurd (format_nat-ne_minus m _ e)
format_int-injective (negsuc m) (pos n) e = absurd (format_nat-ne_minus n _ (sym e))
format_int-injective (negsuc m) (negsuc n) e =
    let same = format_nat-injective (suc m) (suc n) (cc) in ap negsuc (omega arith)

-- What stands before the first slash is determined, and what stands behind it.
split_slash :
    (s t u v : Text) → NoSlash s → NoSlash t → s ++ b'/' ∷ u ≡ t ++ b'/' ∷ v → (s ≡ t) × (u ≡ v)
split_slash [] [] u v h k e = (refl, cc)
split_slash [] (c ∷ t) u v h (d, k) e = absurd (d (cc))
split_slash (b ∷ s) [] u v (d, h) k e = absurd (d (cc))
split_slash (b ∷ s) (c ∷ t) u v (_, h) (_, k) e =
    let rest = split_slash s t u v h k (cc) in (cc, rest.1)

pub slashed-injective :
    (y z : ℤ) (u v : Text) → format_int y ++ b'/' ∷ u ≡ format_int z ++ b'/' ∷ v → (y ≡ z) × (u ≡ v)
slashed-injective y z u v e =
    let parts = split_slash _ _ u v (format_int-NoSlash y) (format_int-NoSlash z) e in
    (format_int-injective y z parts.0, parts.1)
