-- ===== src/Base/Paths/Cleaning.antt =====
-- What `Clean` keeps of the elements of a path, and that it can be done before an element is joined.
use go_firecracker_container.Base.Equality.{◌==◌, nat_eq, list_eq, Bool-cases}
use go_firecracker_container.Base.Lists.{contains, All}
use go_firecracker_container.Base.Text.{Text, text}
use go_firecracker_container.Base.Paths.{
  cut, elements, back, step, steps, relative, render, is_rooted, clean,
}
use Prim.Native.Nat.{ℕ}
use mathlib.Core.Bool.{Bool, true, false, ◌||◌}
use mathlib.Core.List.{List, [], ◌∷◌, ◌++◌}
use mathlib.Core.Logic.{inl, inr, ◌≢◌}
use mathlib.Core.Path.{◌≡◌, refl, sym, ap, ap₂, ◌∙◌}
use native.Mathlib.Omega.{arith}
use native.Mathlib.Decide.{ℕ_discrete}

abbrev pub IsElement : Text → Type 0
IsElement e = contains e b'/' ≡ false

cut_append : (a b : Text) → cut (a ++ b'/' ∷ b) ≡ ((cut a).0, (cut a).1 ++ elements b)
unfolding cut elements
cut_append [] b = refl
cut_append (x ∷ a) b = ground (arith, cut_append a b)

elements_append : (a b : Text) → elements (a ++ b'/' ∷ b) ≡ elements a ++ elements b
unfolding elements
elements_append a b = rw (cut_append a b) refl

pub cut_element : (e : Text) → IsElement e → cut e ≡ (e, [])
unfolding cut contains
cut_element [] h = refl
cut_element (b ∷ e) h = ground (arith, h, cut_element e)

cut-IsElement : (p : Text) → IsElement (cut p).0 × All IsElement (cut p).1
unfolding cut contains
cut-IsElement [] = (refl, tt)
cut-IsElement (b ∷ p) = elim (Bool-cases (b == b'/')) [
  | inl h ↦ rw (h, cut) (refl, cut-IsElement p)
  | inr h ↦ rw (h, cut) (ground (arith, h, (cut-IsElement p).0), (cut-IsElement p).1)
]

steps_append :
    (r : Bool) (st es fs : List Text) → steps r st (es ++ fs) ≡ steps r (steps r st es) fs
unfolding steps
steps_append r st [] fs = refl
steps_append r st (e ∷ es) fs = steps_append r (step r st e) es fs

-- A stack whose elements are all pushed.
abbrev IsNormal : Bool → List Text → Type 0
IsNormal r [] = Unit
IsNormal r (e ∷ st) = IsElement e × (step r st e ≡ e ∷ st) × IsNormal r st

back-IsNormal : (r : Bool) (st : List Text) → IsNormal r st → IsNormal r (back r st)
unfolding back step contains ℕ_discrete list_eq
back-IsNormal true [] n = tt
back-IsNormal false [] n = (refl, refl, tt)
back-IsNormal r (e ∷ st) n = elim (Bool-cases (e == text "..")) [
  | inl h ↦ rw (h, back) (refl, rw (h, back) refl, n)
  | inr h ↦ rw (h, back) n.2
]

step-IsNormal :
    (r : Bool) (st : List Text) (e : Text) → IsElement e → IsNormal r st → IsNormal r (step r st e)
unfolding step
step-IsNormal r st e h n = elim (Bool-cases (e == [] || e == text ".")) [
  | inl p ↦ rw (p, step) n
  | inr p ↦ elim (Bool-cases (e == text "..")) [
    | inl q ↦ rw (p, q, step) (back-IsNormal r st n)
    | inr q ↦ rw (p, q, step) (h, rw (p, q, step) refl, n)
  ]
]

steps-IsNormal :
    (r : Bool) (es st : List Text) → All IsElement es → IsNormal r st → IsNormal r (steps r st es)
unfolding steps
steps-IsNormal r [] st h n = n
steps-IsNormal r (e ∷ es) st h n =
    steps-IsNormal r es (step r st e) h.1 (step-IsNormal r st e h.0 n)

abbrev pub stack : Text → List Text
stack p = steps (is_rooted p) [] (elements p)

steps-relative :
    (r : Bool) (st : List Text) → IsNormal r st → steps r [] (elements (relative st)) ≡ st
unfolding relative steps elements cut step list_eq
steps-relative r [] n = refl
steps-relative r (e ∷ []) n = rw (cut_element e n.0) n.1
steps-relative r (e ∷ f ∷ st) n =
    rw
      (
        elements_append (relative (f ∷ st)) e,
        steps_append r [] (elements (relative (f ∷ st))) (elements e),
        steps-relative r (f ∷ st) n.2,
        cut_element e n.0,
      )
      n.1

relative-start :
    (e : Text) (st : List Text)
    → IsNormal false (e ∷ st)
    → (b : ℕ) × (p : Text) × (relative (e ∷ st) ≡ b ∷ p) × ((b == b'/') ≡ false)
unfolding relative contains step list_eq
relative-start [] [] n = absurd (ground (arith, n.1))
relative-start (b ∷ e) [] n = (b, e, refl, ground (arith, n.0))
relative-start e (f ∷ st) n =
    let (b, p, same, differ) = relative-start f st n.2 in
    (b, p ++ b'/' ∷ e, ap (λ q. q ++ b'/' ∷ e) same, differ)

render-is_rooted : (r : Bool) (st : List Text) → IsNormal r st → is_rooted (render r st) ≡ r
unfolding render is_rooted ℕ_discrete
render-is_rooted true st n = refl
render-is_rooted false [] n = refl
render-is_rooted false (e ∷ st) n =
    let (b, p, same, differ) = relative-start e st n in ap is_rooted same ∙ differ

steps-render :
    (r : Bool) (st : List Text) → IsNormal r st → steps r [] (elements (render r st)) ≡ st
unfolding render steps step elements cut ℕ_discrete list_eq relative
steps-render true st n = steps-relative true st n
steps-render false [] n = refl
steps-render false (e ∷ st) n = steps-relative false (e ∷ st) n

stack-IsNormal : (p : Text) → IsNormal (is_rooted p) (stack p)
unfolding stack elements
stack-IsNormal p = steps-IsNormal (is_rooted p) (elements p) [] (cut-IsElement p) tt

pub clean-is_rooted : (p : Text) → is_rooted (clean p) ≡ is_rooted p
unfolding clean stack
clean-is_rooted p = render-is_rooted (is_rooted p) (stack p) (stack-IsNormal p)

pub stack-clean : (p : Text) → stack (clean p) ≡ stack p
unfolding clean stack
stack-clean p = rw (clean-is_rooted p) (steps-render (is_rooted p) (stack p) (stack-IsNormal p))

pub is_rooted_append : (a b : Text) → a ≢ [] → is_rooted (a ++ b) ≡ is_rooted a
unfolding is_rooted
is_rooted_append [] b h = absurd (h refl)
is_rooted_append (x ∷ a) b h = refl

pub stack_append :
    (a b : Text) → a ≢ [] → stack (a ++ b'/' ∷ b) ≡ steps (is_rooted a) (stack a) (elements b)
unfolding stack
stack_append a b h =
    rw (is_rooted_append a (b'/' ∷ b) h, elements_append a b)
      (steps_append (is_rooted a) [] (elements a) (elements b))

render-ne_nil : (r : Bool) (st : List Text) → IsNormal r st → render r st ≢ []
unfolding render
render-ne_nil true st n h = cc
render-ne_nil false [] n h = cc
render-ne_nil false (e ∷ st) n h = let (b, p, same, differ) = relative-start e st n in cc

pub clean-stack : (p : Text) → clean p ≡ render (is_rooted p) (stack p)
unfolding clean stack
clean-stack p = refl

pub clean-ne_nil : (p : Text) → clean p ≢ []
clean-ne_nil p h =
    render-ne_nil (is_rooted p) (stack p) (stack-IsNormal p) (sym (clean-stack p) ∙ h)

-- A path that is cleaned before an element is joined to it.
pub clean-joined : (p e : Text) → p ≢ [] → clean (clean p ++ b'/' ∷ e) ≡ clean (p ++ b'/' ∷ e)
clean-joined p e h =
    let root : is_rooted (clean p ++ b'/' ∷ e) ≡ is_rooted (p ++ b'/' ∷ e) =
      is_rooted_append (clean p) (b'/' ∷ e) (clean-ne_nil p)
      ∙ (clean-is_rooted p ∙ sym (is_rooted_append p (b'/' ∷ e) h)) in
    let both : stack (clean p ++ b'/' ∷ e) ≡ stack (p ++ b'/' ∷ e) =
      stack_append (clean p) e (clean-ne_nil p)
      ∙ (ap₂ (λ r st. steps r st (elements e)) (clean-is_rooted p) (stack-clean p)
          ∙ sym (stack_append p e h)) in
    clean-stack (clean p ++ b'/' ∷ e) ∙ (ap₂ render root both ∙ sym (clean-stack (p ++ b'/' ∷ e)))
