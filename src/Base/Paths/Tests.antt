-- ===== src/Base/Paths/Tests.antt =====
-- Paths that are cleaned.
use go_firecracker_container.Base.Equality.{list_eq}
use go_firecracker_container.Base.Text.{text}
use go_firecracker_container.Base.Paths.{
  cut, elements, back, step, steps, relative, render, is_rooted, clean, join_path,
}
use mathlib.Core.List.{[], ◌∷◌}
use mathlib.Core.Path.{◌≡◌, refl}
use native.Mathlib.Decide.{ℕ_discrete}

above_the_store : join_path (text "/var/lib/cni" ∷ text ".." ∷ []) ≡ text "/var/lib"
unfolding join_path clean render relative steps step back elements cut is_rooted list_eq ℕ_discrete
above_the_store = refl

two_names_of_one_file :
    join_path (text "/srv" ∷ text "x/../demo" ∷ text "state.json" ∷ [])
    ≡ join_path (text "/srv/" ∷ text "./demo" ∷ text "state.json" ∷ [])
unfolding join_path clean render relative steps step back elements cut is_rooted list_eq ℕ_discrete
two_names_of_one_file = refl

relative_path : join_path (text "" ∷ text "a//b/../../../c" ∷ []) ≡ text "../c"
unfolding join_path clean render relative steps step back elements cut is_rooted list_eq ℕ_discrete
relative_path = refl

no_element : (join_path (text "" ∷ text "" ∷ []) ≡ text "") × (clean (text "") ≡ text ".")
unfolding join_path clean render relative steps step back elements cut is_rooted list_eq ℕ_discrete
no_element = (refl, refl)
