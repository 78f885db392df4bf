-- ===== src/Base/Paths.antt =====
-- `filepath.Clean` and `filepath.Join` of Go on Unix. A path is cut into its elements at the
-- slashes; those that stay are kept as a stack, the last one first.
pub mod Cleaning
pub mod Joining
mod Tests
use go_firecracker_container.Base.Equality.{◌==◌, nat_eq, list_eq, if◌then◌else◌}
use go_firecracker_container.Base.Lists.{contains}
use go_firecracker_container.Base.Text.{Text, text, has_prefix}
use mathlib.Core.Bool.{Bool, true, false, not, ◌&&◌, ◌||◌}
use mathlib.Core.List.{List, [], ◌∷◌, ◌++◌}
use mathlib.Core.Path.{◌≡◌}
use native.Mathlib.Decide.{ℕ_discrete}

-- The first element of a path and the others.
unfoldable pub cut : Text → Text × List Text
unfolding ℕ_discrete
cut [] = ([], [])
cut (b ∷ p) = let (e, es) = cut p in if b == b'/' then ([], e ∷ es) else (b ∷ e, es)

unfoldable pub elements : Text → List Text
elements p = let (e, es) = cut p in e ∷ es

-- "..": the element before it goes. A rooted path has none above the root.
unfoldable pub back : Bool → List Text → List Text
back true [] = []
back false [] = text ".." ∷ []
back rooted (e ∷ st) = if e == text ".." then text ".." ∷ e ∷ st else st

unfoldable pub step : Bool → List Text → Text → List Text
step rooted st e =
    if e == [] || e == text "." then st else if e == text ".." then back rooted st else e ∷ st

unfoldable pub steps : Bool → List Text → List Text → List Text
steps rooted st [] = st
steps rooted st (e ∷ es) = steps rooted (step rooted st e) es

unfoldable pub relative : List Text → Text
relative [] = []
relative (e ∷ []) = e
relative (e ∷ f ∷ st) = relative (f ∷ st) ++ b'/' ∷ e

unfoldable pub render : Bool → List Text → Text
render true st = b'/' ∷ relative st
render false [] = text "."
render false (e ∷ st) = relative (e ∷ st)

unfoldable pub is_rooted : Text → Bool
is_rooted [] = false
is_rooted (b ∷ p) = b == b'/'

unfoldable pub clean : Text → Text
clean p = render (is_rooted p) (steps (is_rooted p) [] (elements p))

abbrev pub joined : Text → List Text → Text
joined e [] = e
joined e (f ∷ es) = e ++ b'/' ∷ joined f es

-- The empty elements in front are passed over.
unfoldable pub join_path : List Text → Text
join_path [] = []
join_path (e ∷ es) = let rest = join_path es in if e == [] then rest else clean (joined e es)

unfoldable pub is_plain : Text → Bool
is_plain e = not (contains e b'/' || e == [] || e == text "." || e == text "..")

-- A name of one entry of a directory: no slash in it, not empty, not "." and not "..".
abbrev pub IsPlain : Text → Type 0
IsPlain e = is_plain e ≡ true
