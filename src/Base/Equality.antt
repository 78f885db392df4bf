-- ===== src/Base/Equality.antt =====
-- Go's `==`, for the types whose equality is decided, and the Boolean tests on numbers.
use Prim.Native.Nat.{ℕ, compare, Ordering}
use mathlib.Core.Path.{◌≡◌, refl}
use mathlib.Core.Logic.{◌⊎◌, inl, inr, ite}
use mathlib.Core.Bool.{Bool, true, false}
use mathlib.Core.Option.{Option, none, some}
use mathlib.Core.List.{List, [], ◌∷◌}
use native.Mathlib.Omega.{arith}
use native.Mathlib.Decide.{ℕ_discrete}

infix 1 if◌then◌else◌
abbrev pub if◌then◌else◌ {ℓ} : {A : Type ℓ} → Bool → A → A → A
if true then x else y = x
if false then x else y = y

abbrev pub ltb : ℕ → ℕ → Bool
ltb a b = elim (compare a b) [ Ordering.lt ↦ true | _ ↦ false ]

abbrev pub leb : ℕ → ℕ → Bool
leb a b = elim (compare a b) [ Ordering.gt ↦ false | _ ↦ true ]

pub Bool-cases : (b : Bool) → (b ≡ true) ⊎ (b ≡ false)
Bool-cases true = inl refl
Bool-cases false = inr refl

pub Option-cases {ℓ} : {A : Type ℓ} (o : Option A) → (o ≡ none) ⊎ ((a : A) × (o ≡ some a))
Option-cases none = inl refl
Option-cases (some a) = inr (a, refl)

pub record Eq {ℓ} (A : Type ℓ) : Type ℓ where
  pub dec : Discrete A

-- A split on `a == b` gives the equation or its negation.
infix 50 ◌==◌
abbrev pub ◌==◌ {ℓ} : {A : Type ℓ} ⦃e : Eq A⦄ → A → A → Bool
◌==◌ ⦃e⦄ a b = ite (e.dec a b) true false

pub cons-injective {ℓ} :
    {A : Type ℓ} {x y : A} {xs ys : List A} → (x ∷ xs) ≡ (y ∷ ys) → (x ≡ y) × (xs ≡ ys)
cons-injective h = (cc, cc)

list_dec {ℓ} : {A : Type ℓ} → Discrete A → Discrete (List A)
list_dec d [] [] = yes refl
list_dec d [] (y ∷ ys) = no (λ p. cc)
list_dec d (x ∷ xs) [] = no (λ p. cc)
list_dec d (x ∷ xs) (y ∷ ys) = elim (d x y) [
  | no differ ↦ no (λ p. differ (cons-injective p).0)
  | yes same ↦ elim (list_dec d xs ys) [
    | no differ ↦ no (λ p. differ (cons-injective p).1)
    | yes rest ↦ yes (cc)
  ]
]

instance abbrev pub nat_eq : Eq ℕ
nat_eq = record { dec = ℕ_discrete }

instance unfoldable pub list_eq {ℓ} : {A : Type ℓ} ⦃e : Eq A⦄ → Eq (List A)
unfolding list_dec
list_eq ⦃e⦄ = record { dec = list_dec e.dec }

module _ {ℓ} {A : Type ℓ} ⦃e : Eq A⦄ where
  pub ==-self : (a : A) → (a == a) ≡ true
  ==-self a = ground arith

  pub eq_of_== : (a b : A) → (a == b) ≡ true → a ≡ b
  eq_of_== a b h = ground arith
