-- ===== src/Base/Paths/Joining.antt =====
-- Joining paths one by one or all at once is the same, and a plain name stands at the end.
use go_firecracker_container.Base.Equality.{nat_eq, list_eq}
use go_firecracker_container.Base.Lists.{contains}
use go_firecracker_container.Base.Text.{Text}
use go_firecracker_container.Base.Paths.{
  cut, elements, step, steps, relative, render, is_rooted, clean, joined, join_path, is_plain,
  IsPlain,
}
use go_firecracker_container.Base.Paths.Cleaning.{
  IsElement, cut_element, stack, clean-stack, clean-joined, clean-ne_nil, is_rooted_append,
  stack_append, clean-is_rooted, stack-clean,
}
use mathlib.Core.Bool.{Bool, true, false}
use mathlib.Core.List.{List, [], ◌∷◌, ◌++◌}
use mathlib.Core.List.{append_assoc}
use mathlib.Core.Logic.{◌≢◌}
use mathlib.Core.Path.{◌≡◌, refl, sym, ap, ap₂, ◌∙◌}
use native.Mathlib.Omega.{arith}

-- Joining two elements at once or one after the other is the same.
pub join_path-join_path :
    (base e f : Text)
    → join_path (join_path (base ∷ e ∷ []) ∷ f ∷ []) ≡ join_path (base ∷ e ∷ f ∷ [])
unfolding join_path list_eq
join_path-join_path [] [] f = refl
join_path-join_path [] (b ∷ e) f =
    ground (arith, clean-ne_nil (b ∷ e), clean-joined (b ∷ e) f (λ h. cc))
join_path-join_path (b ∷ base) e f =
    let p = (b ∷ base) ++ b'/' ∷ e in
    ground (
      arith,
      clean-ne_nil p,
      clean-joined p f (λ h. cc),
      ap clean (append_assoc (b ∷ base) (b'/' ∷ e) (b'/' ∷ f)),
    )

-- What stands before the last element.
abbrev slashed : List Text → Text
slashed [] = []
slashed (f ∷ st) = relative (f ∷ st) ++ b'/' ∷ []

abbrev above : Bool → List Text → Text
above true st = b'/' ∷ slashed st
above false st = slashed st

relative-slashed : (e : Text) (st : List Text) → relative (e ∷ st) ≡ slashed st ++ e
unfolding relative
relative-slashed e [] = refl
relative-slashed e (f ∷ st) = sym (append_assoc (relative (f ∷ st)) (b'/' ∷ []) e)

render-above : (r : Bool) (e : Text) (st : List Text) → render r (e ∷ st) ≡ above r st ++ e
unfolding render
render-above true e st = ap (λ p. b'/' ∷ p) (relative-slashed e st)
render-above false e st = relative-slashed e st

-- A path for the entries of a directory, which their names are put behind.
unfoldable pub within : Text → Text
within base = above (is_rooted base) (stack base)

pub plain-IsElement : (e : Text) → IsPlain e → IsElement e
unfolding is_plain
plain-IsElement e h = ground (arith, h)

plain-ne_nil : (e : Text) → IsPlain e → e ≢ []
unfolding is_plain list_eq
plain-ne_nil e h q = ground (arith, h, q)

step-plain : (r : Bool) (st : List Text) (e : Text) → IsPlain e → step r st e ≡ e ∷ st
unfolding is_plain step
step-plain r st e h = ground (arith, h)

elements-plain : (e : Text) → IsPlain e → elements e ≡ e ∷ []
unfolding elements
elements-plain e h = rw (cut_element e (plain-IsElement e h)) refl

steps-plain : (r : Bool) (st : List Text) (e : Text) → IsPlain e → steps r st (elements e) ≡ e ∷ st
unfolding steps
steps-plain r st e h = rw (elements-plain e h) (step-plain r st e h)

plain-is_rooted : (e : Text) → IsPlain e → is_rooted e ≡ false
unfolding is_plain is_rooted contains
plain-is_rooted [] h = refl
plain-is_rooted (b ∷ e) h = ground (arith, h)

join_path_nil : (e : Text) (es : List Text) → join_path ([] ∷ e ∷ es) ≡ join_path (e ∷ es)
unfolding join_path list_eq
join_path_nil e es = refl

pub join_path_cons : (e : Text) (es : List Text) → e ≢ [] → join_path (e ∷ es) ≡ clean (joined e es)
unfolding join_path
join_path_cons e es h = ground (arith, h)

clean-stacked :
    (p e : Text) (r : Bool) (st : List Text)
    → is_rooted p ≡ r
    → stack p ≡ e ∷ st
    → clean p ≡ above r st ++ e
clean-stacked p e r st h k = clean-stack p ∙ (ap₂ render h k ∙ render-above r e st)

clean-plain : (e : Text) → IsPlain e → clean e ≡ e
unfolding stack
clean-plain e h =
    clean-stacked e e false [] (plain-is_rooted e h) (steps-plain (is_rooted e) [] e h)

-- A plain name that is joined to a path.
pub join_path-plain : (base e : Text) → IsPlain e → join_path (base ∷ e ∷ []) ≡ within base ++ e
unfolding within stack steps step is_rooted elements cut list_eq
join_path-plain [] e h =
    join_path_nil e [] ∙ (join_path_cons e [] (plain-ne_nil e h) ∙ clean-plain e h)
join_path-plain (b ∷ base) e h =
    let p = b ∷ base in
    join_path_cons p (e ∷ []) (λ q. cc)
    ∙ clean-stacked (p ++ b'/' ∷ e) e (is_rooted p) (stack p)
        (is_rooted_append p (b'/' ∷ e) (λ q. cc))
        (stack_append p e (λ q. cc) ∙ steps-plain (is_rooted p) (stack p) e h)

above-render :
    (r : Bool) (e : Text) (st : List Text) → above r (e ∷ st) ≡ render r (e ∷ st) ++ b'/' ∷ []
unfolding render
above-render true e st = refl
above-render false e st = refl

within-stacked :
    (q e : Text) (r : Bool) (st : List Text)
    → is_rooted q ≡ r
    → stack q ≡ e ∷ st
    → within q ≡ (above r st ++ e) ++ b'/' ∷ []
unfolding within
within-stacked q e r st h k =
    ap₂ above h k ∙ (above-render r e st ∙ ap (λ p. p ++ b'/' ∷ []) (render-above r e st))

pub within-join_path :
    (base e : Text)
    → IsPlain e
    → within (join_path (base ∷ e ∷ [])) ≡ (within base ++ e) ++ b'/' ∷ []
unfolding within stack steps step is_rooted elements cut list_eq
within-join_path [] e h =
    ap within (join_path_nil e [] ∙ (join_path_cons e [] (plain-ne_nil e h) ∙ clean-plain e h))
    ∙ within-stacked e e false [] (plain-is_rooted e h) (steps-plain (is_rooted e) [] e h)
within-join_path (b ∷ base) e h =
    let p = b ∷ base in
    let q = p ++ b'/' ∷ e in
    ap within (join_path_cons p (e ∷ []) (λ x. cc))
    ∙ within-stacked (clean q) e (is_rooted p) (stack p)
        (clean-is_rooted q ∙ is_rooted_append p (b'/' ∷ e) (λ x. cc))
        (stack-clean q ∙ (stack_append p e (λ x. cc) ∙ steps-plain (is_rooted p) (stack p) e h))

-- Two plain names that are joined to a path.
pub join_path-plain_two :
    (base e f : Text)
    → IsPlain e
    → IsPlain f
    → join_path (base ∷ e ∷ f ∷ []) ≡ within base ++ (e ++ b'/' ∷ f)
join_path-plain_two base e f h k =
    let d = join_path (base ∷ e ∷ []) in
    sym (join_path-join_path base e f)
    ∙ (join_path-plain d f k
        ∙ (ap (λ p. p ++ f) (within-join_path base e h)
            ∙ (append_assoc (within base ++ e) (b'/' ∷ []) f
                ∙ append_assoc (within base) e (b'/' ∷ f))))
