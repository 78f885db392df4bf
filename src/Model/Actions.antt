-- ===== src/Model/Actions.antt =====
-- Sequences of calls that each may fail. `a >> b` returns the error of `a` if there is one;
-- `ignore a` is Go's `_ = a`; `each` is a loop.
use go_firecracker_container.Base.{◌≡◌, ap, arith, Option, none, some, List, [], ◌∷◌}
use go_firecracker_container.Model.{Error}

abbrev pub Action : Type 0 → Type 0
Action S = S → S × Option Error

module _ {S : Type 0} where
  abbrev pub done : Action S
  done s = (s, none)

  abbrev pub ignore : Action S → Action S
  ignore a s = ((a s).0, none)

  infixl 5 ◌>>◌
  unfoldable pub ◌>>◌ : Action S → Action S → Action S
  ◌>>◌ a b s = elim (a s).1 [ none ↦ b (a s).0 | some e ↦ ((a s).0, some e) ]

  unfoldable pub each {ℓ} : {A : Type ℓ} → (A → Action S) → List A → Action S
  each f [] = done
  each f (x ∷ xs) = f x >> each f xs

-- A step that succeeds is followed by the next one.
pub seq_ok : {S : Type 0} (a b : Action S) (s : S) → (a s).1 ≡ none → (a >> b) s ≡ b (a s).0
unfolding ◌>>◌
seq_ok a b s h = ap (λ e. elim e [ none ↦ b (a s).0 | some x ↦ ((a s).0, some x) ]) h

-- A sequence that succeeds is a success of each part.
pub seq_succeeds :
    {S : Type 0} (a b : Action S) (s : S)
    → ((a >> b) s).1 ≡ none
    → ((a s).1 ≡ none) × ((b (a s).0).1 ≡ none) × ((a >> b) s ≡ b (a s).0)
unfolding ◌>>◌
seq_succeeds a b s h = ground (arith, h)

-- The same where the state after the step is known.
pub seq_to : {S : Type 0} (a b : Action S) (s t : S) → a s ≡ (t, none) → (a >> b) s ≡ b t
unfolding ◌>>◌
seq_to a b s t h = ap (λ r. elim r.1 [ none ↦ b r.0 | some e ↦ (r.0, some e) ]) h
