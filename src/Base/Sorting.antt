-- ===== src/Base/Sorting.antt =====
-- `sort.Strings`: texts in the order of their bytes.
pub mod Laws
use Prim.Native.Nat.{ℕ}
use mathlib.Core.Bool.{Bool, true, false}
use mathlib.Core.List.{List, [], ◌∷◌}
use go_firecracker_container.Base.Equality.{ltb, if◌then◌else◌}
use go_firecracker_container.Base.Text.{Text}

-- `a <= b` on strings.
unfoldable pub is_ordered : Text → Text → Bool
is_ordered [] b = true
is_ordered (x ∷ a) [] = false
is_ordered (x ∷ a) (y ∷ b) =
    let rest = is_ordered a b in if ltb x y then true else if ltb y x then false else rest

unfoldable pub insert_sorted : Text → List Text → List Text
insert_sorted a [] = a ∷ []
insert_sorted a (b ∷ bs) =
    let rest = insert_sorted a bs in if is_ordered a b then a ∷ b ∷ bs else b ∷ rest

unfoldable pub sort_strings : List Text → List Text
sort_strings [] = []
sort_strings (a ∷ cs) = insert_sorted a (sort_strings cs)
