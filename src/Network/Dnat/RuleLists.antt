-- ===== src/Network/Dnat/RuleLists.antt =====
-- Rules added to a chain one after the other, and deleted again.
use go_firecracker_container.Base.{
  ◌≡◌, refl, ◌∙◌, ap, false, not, ◌&&◌, ◌||◌, List, [], ◌∷◌, ◌++◌, arith, ◌==◌, nat_eq, list_eq,
  contains, contains-append, All, NoDuplicates, Bool-cases, inl, inr,
}
use mathlib.Core.List.{append_assoc, append-nil}
use go_firecracker_container.Network.Firewall.View.{add_all}
use go_firecracker_container.Network.Tables.{Rule, add_unique, remove_first}

unfoldable pub remove_all : List Rule → List Rule → List Rule
remove_all [] chain = chain
remove_all (r ∷ rs) chain = remove_all rs (remove_first r chain)

abbrev pub AreNew : List Rule → List Rule → Type 0
AreNew chain = All (λ r. contains chain r ≡ false)

add_unique-behind :
    (r : Rule) (chain new : List Rule)
    → contains chain r ≡ false
    → add_unique r (chain ++ new) ≡ chain ++ add_unique r new
unfolding add_unique
add_unique-behind r chain new h = elim (Bool-cases (contains new r)) [
  | inl e ↦ rw (contains-append chain new r, h, e) refl
  | inr e ↦ rw (contains-append chain new r, h, e) (append_assoc chain new (r ∷ []))
]

add_all-behind :
    (rs chain new : List Rule)
    → AreNew chain rs
    → add_all rs (chain ++ new) ≡ chain ++ add_all rs new
add_all-behind [] chain new h = refl
add_all-behind (r ∷ rs) chain new (h, hs) =
    ap (add_all rs) (add_unique-behind r chain new h)
    ∙ add_all-behind rs chain (add_unique r new) hs

remove_first-behind :
    (r : Rule) (chain new : List Rule)
    → contains chain r ≡ false
    → remove_first r (chain ++ new) ≡ chain ++ remove_first r new
unfolding remove_first contains
remove_first-behind r [] new h = refl
remove_first-behind r (q ∷ chain) new h = ground (arith, remove_first-behind r chain new)

remove_all-behind :
    (rs chain new : List Rule)
    → AreNew chain rs
    → remove_all rs (chain ++ new) ≡ chain ++ remove_all rs new
unfolding remove_all
remove_all-behind [] chain new h = refl
remove_all-behind (r ∷ rs) chain new (h, hs) =
    ap (remove_all rs) (remove_first-behind r chain new h)
    ∙ remove_all-behind rs chain (remove_first r new) hs

contains-add_unique :
    (r q : Rule) (chain : List Rule)
    → contains (add_unique r chain) q ≡ (contains chain q || q == r)
unfolding add_unique contains
contains-add_unique r q chain = ground (arith, contains-append chain (r ∷ []) q)

NoDuplicates-snoc :
    (r : Rule) (chain : List Rule)
    → NoDuplicates chain
    → contains chain r ≡ false
    → NoDuplicates (chain ++ r ∷ [])
unfolding contains
NoDuplicates-snoc r [] u h = (refl, tt)
NoDuplicates-snoc r (q ∷ chain) (f, u) h =
    (ground (arith, contains-append chain (r ∷ []) q), NoDuplicates-snoc r chain u (ground arith))

add_unique-NoDuplicates :
    (r : Rule) (chain : List Rule) → NoDuplicates chain → NoDuplicates (add_unique r chain)
unfolding add_unique
add_unique-NoDuplicates r chain u = elim (Bool-cases (contains chain r)) [
  | inl e ↦ rw e u
  | inr e ↦ rw e (NoDuplicates-snoc r chain u e)
]

-- What the rules `rs` leave: a chain without duplicates whose rules are all among `rs` is emptied.
contains-remove_first :
    (r q : Rule) (chain : List Rule)
    → NoDuplicates chain
    → contains (remove_first r chain) q ≡ (contains chain q && not (q == r))
unfolding remove_first contains
contains-remove_first r q [] u = refl
contains-remove_first r q (p ∷ chain) (f, u) = ground (arith, contains-remove_first r q chain u)

remove_first-NoDuplicates :
    (r : Rule) (chain : List Rule) → NoDuplicates chain → NoDuplicates (remove_first r chain)
unfolding remove_first
remove_first-NoDuplicates r [] u = tt
remove_first-NoDuplicates r (p ∷ chain) (f, u) = elim (Bool-cases (r == p)) [
  | inl e ↦ rw e u
  | inr e ↦
      rw e (ground (arith, contains-remove_first r p chain u), remove_first-NoDuplicates r chain u)
]

contains-add_all :
    (rs : List Rule) (q : Rule) (chain : List Rule)
    → contains (add_all rs chain) q ≡ (contains chain q || contains rs q)
unfolding contains
contains-add_all [] q chain = ground arith
contains-add_all (r ∷ rs) q chain =
    ground (arith, contains-add_all rs q (add_unique r chain), contains-add_unique r q chain)

add_all-NoDuplicates : (rs chain : List Rule) → NoDuplicates chain → NoDuplicates (add_all rs chain)
add_all-NoDuplicates [] chain u = u
add_all-NoDuplicates (r ∷ rs) chain u =
    add_all-NoDuplicates rs (add_unique r chain) (add_unique-NoDuplicates r chain u)

contains-remove_all :
    (rs : List Rule) (q : Rule) (chain : List Rule)
    → NoDuplicates chain
    → contains (remove_all rs chain) q ≡ (contains chain q && not (contains rs q))
unfolding remove_all contains
contains-remove_all [] q chain u = ground arith
contains-remove_all (r ∷ rs) q chain u = ground (
  arith,
  contains-remove_all rs q (remove_first r chain) (remove_first-NoDuplicates r chain u),
  contains-remove_first r q chain u,
)

nil_of_no_items : (rs : List Rule) → ((q : Rule) → contains rs q ≡ false) → rs ≡ []
unfolding contains
nil_of_no_items [] h = refl
nil_of_no_items (r ∷ rs) h = ground (arith, h r)

-- Rules that were not there are gone after they are deleted, also those that are listed twice.
pub remove_all-add_all :
    (rs chain : List Rule) → AreNew chain rs → remove_all rs (add_all rs chain) ≡ chain
unfolding contains
remove_all-add_all rs chain h =
    let emptied : remove_all rs (add_all rs []) ≡ [] = nil_of_no_items _ λ q. ground (
      arith,
      contains-remove_all rs q (add_all rs []) (add_all-NoDuplicates rs [] tt),
      contains-add_all rs q [],
    ) in
    rw (← append-nil chain) (
      ap (remove_all rs) (add_all-behind rs chain [] h)
      ∙ remove_all-behind rs chain (add_all rs []) h
      ∙ ap (λ new. chain ++ new) emptied)
