-- ===== src/Machine/Polling.antt =====
-- Loops that wait: `for time.Now().Before(deadline) { ...; time.Sleep(period) }`. A round gives a
-- result, or the variables of the next round.
use go_firecracker_container.Base.{
  ℕ, zero, suc, ◌+◌, ◌*◌, ◌≤◌, ◌≡◌, refl, ap, ◌⊎◌, inl, inr, ltb, if◌then◌else◌, arith,
}
use go_firecracker_container.Machine.{Clock, Sleeps}

module _ {S A B : Type 0} (C : Clock S) (deadline period : ℕ) (round : A → S → S × (B ⊎ A)) where
  -- `inr` at the end: the deadline has passed.
  unfoldable pub poll : ℕ → A → S → S × (B ⊎ A)
  poll zero a s = (s, inr a)
  poll (suc fuel) a s =
      let (t, r) = round a s in
      let rest : S × (B ⊎ A) = elim r [
        | inl b ↦ (t, inl b)
        | inr a' ↦ poll fuel a' (C.sleep period t)
      ] in
      if ltb (C.now s) deadline then rest else (s, inr a)

  -- A round takes no negative time.
  abbrev pub TakesTime : Type 0
  TakesTime = (a : A) (s : S) → C.now s ≤ C.now (round a s).0

  abbrev continue_with : ℕ → S → B ⊎ A → S × (B ⊎ A)
  continue_with fuel t (inl b) = (t, inl b)
  continue_with fuel t (inr a) = poll fuel a (C.sleep period t)

  continue_alike :
      (fuel n : ℕ) (t : S) (r : B ⊎ A)
      → ((a : A) → poll fuel a (C.sleep period t) ≡ poll n a (C.sleep period t))
      → continue_with fuel t r ≡ continue_with n t r
  continue_alike fuel n t (inl b) same = refl
  continue_alike fuel n t (inr a) same = same a

  -- Once the rounds that fit before the deadline are allowed, more fuel changes nothing: the loop
  -- ends by a result or by its deadline.
  pub poll_enough :
      Sleeps C
      → TakesTime
      → (n fuel : ℕ) (a : A) (s : S) → deadline ≤ C.now s + n * period
      → n ≤ fuel
      → poll fuel a s ≡ poll n a s
  unfolding poll
  poll_enough L time zero zero a s d f = refl
  poll_enough L time zero (suc fuel) a s d f = ground arith
  poll_enough L time (suc n) zero a s d f = absurd (omega arith)
  poll_enough L time (suc n) (suc fuel) a s d f =
      ap (λ (rest : S × (B ⊎ A)). if ltb (C.now s) deadline then rest else (s, inr a))
        (continue_alike fuel n (round a s).0 (round a s).1 λ a'.
          poll_enough L time n fuel a' (C.sleep period (round a s).0)
            (grind (arith, d, time a s, L.now-sleep period (round a s).0)) (omega arith))
