-- ===== src/Network/ShortId/Laws.antt =====
-- The names of a sandbox's chains: their length, their letters, and when two of them agree.
use native.Mathlib.Nat.{pow-suc}
use go_firecracker_container.Base.{
  ℕ, zero, suc, ◌+◌, ◌*◌, ◌/◌, ◌%◌, ◌^◌, ◌≤◌, ◌<◌, ◌≡◌, refl, ap, ◌↔◌, ◌⊎◌, [], ◌∷◌, ◌++◌, length,
  length-append, All, All-append, arith, ◌-◌, leb, sym, ◌∙◌, if◌then◌else◌,
}
use go_firecracker_container.Base.Text.{Text}
use go_firecracker_container.Network.ShortId.{fnv_step, fnv_from, fnv32a, hex_digit, hex, short_id}

length-hex : (w n : ℕ) → length (hex w n) ≡ w
unfolding hex
length-hex zero n = refl
length-hex (suc w) n =
    omega (arith, length-append (hex w (n / 16)) (hex_digit (n % 16) ∷ []), length-hex w (n / 16))

-- A digit, or a letter from "a" to "f".
abbrev pub IsHexDigit : ℕ → Type 0
IsHexDigit b = ((b'0' ≤ b) × (b ≤ b'9')) ⊎ ((b'a' ≤ b) × (b ≤ b'f'))

hex_digit-IsHexDigit : (d : ℕ) → d < 16 → IsHexDigit (hex_digit d)
unfolding hex_digit
hex_digit-IsHexDigit d h = ground arith

hex-IsHexDigit : (w n : ℕ) → All IsHexDigit (hex w n)
unfolding hex
hex-IsHexDigit zero n = tt
hex-IsHexDigit (suc w) n =
    All-append IsHexDigit (hex w (n / 16)) (hex_digit (n % 16) ∷ []) (hex-IsHexDigit w (n / 16))
      (hex_digit-IsHexDigit (n % 16) (omega arith), tt)

-- The number that a hexadecimal numeral stands for, by Horner's rule.
abbrev digit_value : ℕ → ℕ
digit_value b = if leb b b'9' then b - b'0' else b - b'a' + 10

abbrev pub hex_value : ℕ → Text → ℕ
hex_value acc [] = acc
hex_value acc (b ∷ s) = hex_value (acc * 16 + digit_value b) s

hex_value-append : (acc : ℕ) (s t : Text) → hex_value acc (s ++ t) ≡ hex_value (hex_value acc s) t
hex_value-append acc [] t = refl
hex_value-append acc (b ∷ s) t = hex_value-append (acc * 16 + digit_value b) s t

digit_value-hex_digit : (d : ℕ) → d < 16 → digit_value (hex_digit d) ≡ d
unfolding hex_digit
digit_value-hex_digit d h = ground arith

hex_value-hex : (w n : ℕ) → n < 16 ^ w → hex_value 0 (hex w n) ≡ n
unfolding hex
hex_value-hex zero n h = omega arith
hex_value-hex (suc w) n h =
    let lower = hex_value-hex w (n / 16) (omega (arith, pow-suc 16 w)) in
    rw (hex_value-append, lower, digit_value-hex_digit (n % 16) (omega arith)) (omega arith)

fnv_step-lt : (h b : ℕ) → fnv_step h b < 2 ^ 32
unfolding fnv_step
fnv_step-lt h b = omega arith

fnv_from-lt : (h : ℕ) (s : Text) → h < 2 ^ 32 → fnv_from h s < 2 ^ 32
unfolding fnv_from
fnv_from-lt h [] lt = lt
fnv_from-lt h (b ∷ s) lt = fnv_from-lt (fnv_step h b) s (fnv_step-lt h b)

-- The hash is a 32-bit word.
fnv32a-lt : (s : Text) → fnv32a s < 2 ^ 32
unfolding fnv32a
fnv32a-lt s = fnv_from-lt _ s (omega arith)

-- The name of an id has eight hexadecimal digits in lower case.
pub short_id-shape : (id : Text) → (length (short_id id) ≡ 8) × All IsHexDigit (short_id id)
unfolding short_id
short_id-shape id = (length-hex 8 (fnv32a id), hex-IsHexDigit 8 (fnv32a id))

-- Read as a hexadecimal numeral, the name of an id is the hash of the id.
pub hex_value-short_id : (id : Text) → hex_value 0 (short_id id) ≡ fnv32a id
unfolding short_id
hex_value-short_id id = hex_value-hex 8 (fnv32a id) (fnv32a-lt id)

-- Two ids share a name exactly when their hashes collide.
pub short_id-eq_iff : (a b : Text) → (short_id a ≡ short_id b) ↔ (fnv32a a ≡ fnv32a b)
short_id-eq_iff a b = (
  λ e. sym (hex_value-short_id a) ∙ ap (hex_value 0) e ∙ hex_value-short_id b,
  λ e. unfold short_id in ap (hex 8) e,
)
