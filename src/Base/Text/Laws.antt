-- ===== src/Base/Text/Laws.antt =====
-- Prefixes and parts of a text.
use Prim.Native.Nat.{ℕ}
use mathlib.Core.Path.{◌≡◌, refl, ◌∙◌}
use mathlib.Core.Bool.{true, false}
use mathlib.Core.List.{[], ◌∷◌, ◌++◌, reverse, reverse-cons, reverse-reverse}
use native.Mathlib.Omega.{arith}
use native.Mathlib.Decide.{ℕ_discrete}
use go_firecracker_container.Base.Equality.{◌==◌, nat_eq, Bool-cases}
use mathlib.Core.Logic.{inl, inr}
use go_firecracker_container.Base.Lists.{contains, contains-append}
use go_firecracker_container.Base.Text.{
  Text, has_prefix, contains_text, drop_as, trim_prefix, trim_quotes_left, trim_quotes,
}

pub has_prefix-append : (p s : Text) → has_prefix (p ++ s) p ≡ true
unfolding has_prefix
has_prefix-append [] s = refl
has_prefix-append (b ∷ p) s = ground (arith, has_prefix-append p s)

contains_of_prefix : (s p : Text) → has_prefix s p ≡ true → contains_text s p ≡ true
unfolding contains_text
contains_of_prefix [] p h = h
contains_of_prefix (b ∷ s) p h = ground arith

-- A text holds each of its parts.
pub contains_text-append : (before p after : Text) → contains_text (before ++ (p ++ after)) p ≡ true
unfolding contains_text
contains_text-append [] p after = contains_of_prefix (p ++ after) p (has_prefix-append p after)
contains_text-append (b ∷ before) p after = ground (arith, contains_text-append before p after)

drop_as-append : (p s : Text) → drop_as (p ++ s) p ≡ s
unfolding drop_as
drop_as-append [] s = refl
drop_as-append (b ∷ p) s = drop_as-append p s

pub trim_prefix-append : (p s : Text) → trim_prefix (p ++ s) p ≡ s
unfolding trim_prefix
trim_prefix-append p s = ground (arith, has_prefix-append p s, drop_as-append p s)

-- A text that does not start with a quote keeps its start.
trim_quotes_left-none : (s : Text) → contains s b'"' ≡ false → trim_quotes_left s ≡ s
unfolding trim_quotes_left ℕ_discrete contains
trim_quotes_left-none [] h = refl
trim_quotes_left-none (b ∷ s) h = elim (Bool-cases (b == b'"')) [
  | inl e ↦ absurd (ground (arith, e, h))
  | inr e ↦ rw e refl
]

contains-reverse : (s : Text) (b : ℕ) → contains (reverse s) b ≡ contains s b
unfolding contains
contains-reverse [] b = refl
contains-reverse (c ∷ s) b =
    rw (reverse-cons c s, contains-append (reverse s) (c ∷ []) b, contains-reverse s b)
      (ground arith)

-- A text without quotes is kept.
pub trim_quotes-none : (s : Text) → contains s b'"' ≡ false → trim_quotes s ≡ s
unfolding trim_quotes
trim_quotes-none s h =
    rw
      (
        trim_quotes_left-none s h,
        trim_quotes_left-none (reverse s) (contains-reverse s b'"' ∙ h),
        reverse-reverse s,
      )
      refl
