-- ===== src/Base/Sorting/Laws.antt =====
-- Sorted texts are in order, and they are the texts that were given.
use go_firecracker_container.Base.{
  ◌≡◌, refl, true, false, ◌||◌, List, [], ◌∷◌, contains, ◌==◌, nat_eq, list_eq, arith, All,
  Bool-cases, inl, inr,
}
use go_firecracker_container.Base.Text.{Text}
use go_firecracker_container.Base.Sorting.{is_ordered, insert_sorted, sort_strings}

is_ordered_total : (a b : Text) → is_ordered a b ≡ false → is_ordered b a ≡ true
unfolding is_ordered
is_ordered_total [] b h = cc
is_ordered_total (x ∷ a) [] h = refl
is_ordered_total (x ∷ a) (y ∷ b) h = ground (arith, h, is_ordered_total a b)

is_ordered_trans :
    (a b c : Text) → is_ordered a b ≡ true → is_ordered b c ≡ true → is_ordered a c ≡ true
unfolding is_ordered
is_ordered_trans [] b c h k = refl
is_ordered_trans (x ∷ a) [] c h k = cc
is_ordered_trans (x ∷ a) (y ∷ b) [] h k = cc
is_ordered_trans (x ∷ a) (y ∷ b) (z ∷ c) h k = ground (arith, h, k, is_ordered_trans a b c)

-- Each text is before all that follow it.
abbrev pub AreSorted : List Text → Type 0
AreSorted [] = Unit
AreSorted (a ∷ ds) = All (λ b. is_ordered a b ≡ true) ds × AreSorted ds

All-weaken :
    (a b : Text) (ds : List Text)
    → is_ordered a b ≡ true
    → All (λ c. is_ordered b c ≡ true) ds
    → All (λ c. is_ordered a c ≡ true) ds
All-weaken a b [] h k = tt
All-weaken a b (c ∷ ds) h k = (is_ordered_trans a b c h k.0, All-weaken a b ds h k.1)

All-insert_sorted :
    (b a : Text) (ds : List Text)
    → is_ordered b a ≡ true
    → All (λ c. is_ordered b c ≡ true) ds
    → All (λ c. is_ordered b c ≡ true) (insert_sorted a ds)
unfolding insert_sorted
All-insert_sorted b a [] h k = (h, tt)
All-insert_sorted b a (c ∷ ds) h k = elim (Bool-cases (is_ordered a c)) [
  | inl p ↦ rw (p, insert_sorted) (h, k)
  | inr p ↦ rw (p, insert_sorted) (k.0, All-insert_sorted b a ds h k.1)
]

insert_sorted-AreSorted :
    (a : Text) (ds : List Text) → AreSorted ds → AreSorted (insert_sorted a ds)
unfolding insert_sorted
insert_sorted-AreSorted a [] h = (tt, tt)
insert_sorted-AreSorted a (b ∷ ds) h = elim (Bool-cases (is_ordered a b)) [
  | inl p ↦ rw (p, insert_sorted) ((p, All-weaken a b ds p h.0), h)
  | inr p ↦
      rw (p, insert_sorted)
        (All-insert_sorted b a ds (is_ordered_total a b p) h.0, insert_sorted-AreSorted a ds h.1)
]

contains-insert_sorted :
    (a x : Text) (ds : List Text) → contains (insert_sorted a ds) x ≡ (x == a || contains ds x)
unfolding insert_sorted contains
contains-insert_sorted a x [] = refl
contains-insert_sorted a x (b ∷ ds) = ground (arith, contains-insert_sorted a x ds)

pub contains-sort_strings :
    (ds : List Text) (x : Text) → contains (sort_strings ds) x ≡ contains ds x
unfolding sort_strings contains
contains-sort_strings [] x = refl
contains-sort_strings (a ∷ ds) x =
    ground (arith, contains-insert_sorted a x (sort_strings ds), contains-sort_strings ds x)

pub sort_strings-AreSorted : (ds : List Text) → AreSorted (sort_strings ds)
unfolding sort_strings
sort_strings-AreSorted [] = tt
sort_strings-AreSorted (a ∷ ds) =
    insert_sorted-AreSorted a (sort_strings ds) (sort_strings-AreSorted ds)
