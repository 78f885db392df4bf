-- ===== src/Base/Text.antt =====
-- Go strings are sequences of bytes. The functions of `strings` are given for ASCII text.
pub mod Laws
use Prim.Native.Char.{code}
use Prim.Native.String.{String}
use Prim.Native.Nat.{ℕ, ◌+◌, ◌-◌}
use mathlib.Core.Bool.{Bool, true, false, ◌&&◌, ◌||◌}
use mathlib.Core.List.{List, [], ◌∷◌, map, reverse}
use native.Mathlib.Decide.{ℕ_discrete}
use go_firecracker_container.Base.Equality.{leb, ◌==◌, nat_eq, list_eq, if◌then◌else◌}

abbrev pub Text : Type 0
Text = List ℕ

-- A literal of the source.
abbrev pub text : String → Text
text String.[] = []
text (String.◌∷◌ c s) = code c ∷ text s

pub lower_byte : ℕ → ℕ
lower_byte b = if leb b'A' b && leb b b'Z' then b + 32 else b

pub upper_byte : ℕ → ℕ
upper_byte b = if leb b'a' b && leb b b'z' then b - 32 else b

-- `strings.ToLower`, `strings.ToUpper`
unfoldable pub to_lower : Text → Text
unfolding lower_byte
to_lower = map lower_byte

unfoldable pub to_upper : Text → Text
unfolding upper_byte
to_upper = map upper_byte

-- Tab, newline, vertical tab, form feed, carriage return and blank.
pub is_space : ℕ → Bool
is_space b = (leb 9 b && leb b 13) || b == 32

pub trim_left : Text → Text
trim_left [] = []
trim_left (b ∷ s) = let rest = trim_left s in if is_space b then rest else b ∷ s

-- `strings.TrimSpace`
unfoldable pub trim_space : Text → Text
unfolding trim_left is_space ℕ_discrete
trim_space s = reverse (trim_left (reverse (trim_left s)))

-- `strings.HasPrefix`
unfoldable pub has_prefix : Text → Text → Bool
unfolding ℕ_discrete
has_prefix s [] = true
has_prefix [] (p ∷ ps) = false
has_prefix (b ∷ s) (p ∷ ps) = b == p && has_prefix s ps

-- `strings.Contains`
unfoldable pub contains_text : Text → Text → Bool
unfolding has_prefix
contains_text [] p = has_prefix [] p
contains_text (b ∷ s) p = has_prefix (b ∷ s) p || contains_text s p

-- The text without as many bytes as `p` has.
drop_as : Text → Text → Text
drop_as s [] = s
drop_as [] (p ∷ ps) = []
drop_as (b ∷ s) (p ∷ ps) = drop_as s ps

-- `strings.TrimPrefix`
unfoldable pub trim_prefix : Text → Text → Text
unfolding has_prefix drop_as
trim_prefix s p = if has_prefix s p then drop_as s p else s

add_word : Text → List Text → List Text
add_word w ws = if w == [] then ws else w ∷ ws

-- The word at the start of a text, and the words behind it.
scan_words : Text → Text × List Text
unfolding is_space add_word
scan_words [] = ([], [])
scan_words (b ∷ s) =
    let (word, rest) = scan_words s in
    if is_space b then ([], add_word word rest) else (b ∷ word, rest)

-- `strings.Fields`
unfoldable pub fields : Text → List Text
unfolding scan_words ℕ_discrete
fields s = let (word, rest) = scan_words s in add_word word rest

-- `strings.Trim(s, "\"")`
trim_quotes_left : Text → Text
trim_quotes_left [] = []
trim_quotes_left (b ∷ s) = let rest = trim_quotes_left s in if b == b'"' then rest else b ∷ s

unfoldable pub trim_quotes : Text → Text
unfolding trim_quotes_left ℕ_discrete
trim_quotes s = reverse (trim_quotes_left (reverse (trim_quotes_left s)))
