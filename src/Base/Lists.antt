-- ===== src/Base/Lists.antt =====
-- Lists: lengths by native numbers, membership, and predicates by recursion.
use Prim.Native.Nat.{ℕ, suc, ◌+◌}
use mathlib.Core.Path.{◌≡◌, refl}
use mathlib.Core.Logic.{◌↔◌}
use mathlib.Core.Bool.{Bool, true, false, ◌&&◌, ◌||◌}
use mathlib.Core.List.{List, [], ◌∷◌, ◌++◌}
use native.Mathlib.Omega.{arith}
use go_firecracker_container.Base.Equality.{Eq, ◌==◌}

module _ {ℓ} {A : Type ℓ} where
  abbrev pub length : List A → ℕ
  length [] = 0
  length (x ∷ xs) = suc (length xs)

  pub length-append : (xs ys : List A) → length (xs ++ ys) ≡ length xs + length ys
  length-append [] ys = omega arith
  length-append (x ∷ xs) ys = omega (arith, length-append xs ys)

  abbrev pub is_empty : List A → Bool
  is_empty [] = true
  is_empty (x ∷ xs) = false

  abbrev pub all : (A → Bool) → List A → Bool
  all p [] = true
  all p (x ∷ xs) = p x && all p xs

  -- `for … { if p { return true } }; return false`
  abbrev pub any : (A → Bool) → List A → Bool
  any p [] = false
  any p (x ∷ xs) = p x || any p xs

module _ {ℓ κ} {A : Type ℓ} (P : A → Type κ) where
  abbrev pub All : List A → Type κ
  All [] = Unit
  All (x ∷ xs) = P x × All xs

  pub All-append : (xs ys : List A) → All xs → All ys → All (xs ++ ys)
  All-append [] ys h k = k
  All-append (x ∷ xs) ys (p, h) k = (p, All-append xs ys h k)

module _ {ℓ} {A : Type ℓ} ⦃e : Eq A⦄ where
  -- `slices.Contains`, and the test of a key in a set.
  unfoldable pub contains : List A → A → Bool
  contains [] a = false
  contains (x ∷ xs) a = a == x || contains xs a

  abbrev pub NoDuplicates : List A → Type 0
  NoDuplicates [] = Unit
  NoDuplicates (x ∷ xs) = (contains xs x ≡ false) × NoDuplicates xs

  pub contains-append :
      (xs ys : List A) (a : A) → contains (xs ++ ys) a ≡ (contains xs a || contains ys a)
  unfolding contains
  contains-append [] ys a = refl
  contains-append (x ∷ xs) ys a = ground (arith, contains-append xs ys a)

  -- Each item is new to `seen` and to the items before it: what a loop over a set checks.
  abbrev pub AreFresh : List A → List A → Type 0
  AreFresh seen [] = Unit
  AreFresh seen (x ∷ xs) = (contains seen x ≡ false) × AreFresh (x ∷ seen) xs

  abbrev pub Avoids : List A → List A → Type 0
  Avoids seen = All (λ x. contains seen x ≡ false)

  Avoids-cons :
      (x : A) (seen xs : List A) → Avoids (x ∷ seen) xs ↔ ((contains xs x ≡ false) × Avoids seen xs)
  unfolding contains
  Avoids-cons x seen [] = (λ h. (refl, tt), λ h. tt)
  Avoids-cons x seen (y ∷ xs) = ground (arith, Avoids-cons x seen xs)

  AreFresh-iff : (seen xs : List A) → AreFresh seen xs ↔ (NoDuplicates xs × Avoids seen xs)
  AreFresh-iff seen [] = (λ h. (tt, tt), λ h. tt)
  AreFresh-iff seen (x ∷ xs) =
      let ih = AreFresh-iff (x ∷ seen) xs in
      let split = Avoids-cons x seen xs in
      (
        λ h. ((((split.0 (ih.0 h.1).1).0), (ih.0 h.1).0), (h.0, (split.0 (ih.0 h.1).1).1)),
        λ h. (h.1.0, ih.1 (h.0.1, split.1 (h.0.0, h.1.1))),
      )

  Avoids-nil : (xs : List A) → Avoids [] xs
  unfolding contains
  Avoids-nil [] = tt
  Avoids-nil (x ∷ xs) = (refl, Avoids-nil xs)

  pub AreFresh-nil_iff : (xs : List A) → AreFresh [] xs ↔ NoDuplicates xs
  AreFresh-nil_iff xs =
      (λ h. ((AreFresh-iff [] xs).0 h).0, λ h. (AreFresh-iff [] xs).1 (h, Avoids-nil xs))

module _ {ℓ κ} {A : Type ℓ} {B : Type κ} where
  abbrev pub concat_map : (A → List B) → List A → List B
  concat_map f [] = []
  concat_map f (x ∷ xs) = f x ++ concat_map f xs

module _ {ℓ} {A : Type ℓ} ⦃e : Eq A⦄ where
  pub NoDuplicates-append :
      (xs ys : List A)
      → NoDuplicates (xs ++ ys)
      → NoDuplicates xs × NoDuplicates ys × ((a : A) → contains xs a ≡ true → contains ys a ≡ false)
  unfolding contains
  NoDuplicates-append [] ys u = (tt, u, λ a h. cc)
  NoDuplicates-append (x ∷ xs) ys (fresh, u) =
      let ih = NoDuplicates-append xs ys u in
      (
        (ground (arith, contains-append xs ys x), ih.0),
        ih.1,
        λ a h. ground (arith, contains-append xs ys x, ih.2 a),
      )
