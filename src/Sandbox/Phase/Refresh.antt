-- ===== src/Sandbox/Phase/Refresh.antt =====
-- The phase that a sandbox is reported in.
use mathlib.Core.Logic.{∥∥₁_elim}
use mathlib.Core.Bool.{Bool-set, or_assoc, and_assoc, or_comm, and_comm}
use mathlib.Core.List.{Perm, Permᴰ}
use go_firecracker_container.Base.{
  ℕ, ◌≡◌, refl, sym, ◌∙◌, ap, ap₂, Bool, true, false, not, ◌&&◌, ◌||◌, List, [], ◌∷◌, any, all,
  is_empty, ◌==◌, nat_eq, list_eq, arith, if◌then◌else◌, Bool-cases, inl, inr, ℕ_discrete,
}
use go_firecracker_container.Base.Text.{Text, text}
use go_firecracker_container.Base.Dict.{Dict}
use go_firecracker_container.Model.{SandboxPhase, ContainerState, Sandbox}
use go_firecracker_container.Sandbox.Phase.{
  Answer, no_container, no_task, no_status, has_status, is_error_phase, is_failed, is_running,
  is_deleting, Tally, tally, tally_all, next_state, with_grace, fill_container_runtime_state,
  task_status_to_container_phase, refresh_containers, settle, in_create_grace,
  refresh_sandbox_runtime_state, no_tally,
}

-- The answers of the runtime on which the phase rests.
abbrev pub answers_running : Answer → Bool
answers_running (has_status status exit_status exit_time pid) = status == text "running"
answers_running _ = false

abbrev pub answers_failed : Bool → Answer → Bool
answers_failed grace no_container = not grace
answers_failed grace no_status = true
answers_failed grace _ = false

phase-running :
    (a : Answer) (grace : Bool) (st : ContainerState)
    → is_running (with_grace grace (fill_container_runtime_state a st)).phase ≡ answers_running a
unfolding with_grace fill_container_runtime_state task_status_to_container_phase
phase-running no_container grace st = ground arith
phase-running no_task grace st = ground arith
phase-running no_status grace st = ground arith
phase-running (has_status status exit_status exit_time pid) grace st = ground arith

status_phase-failed : (status : Text) → is_failed (task_status_to_container_phase status) ≡ false
unfolding task_status_to_container_phase
status_phase-failed status = ground arith

phase-failed :
    (a : Answer) (grace : Bool) (st : ContainerState)
    → is_failed (with_grace grace (fill_container_runtime_state a st)).phase
      ≡ answers_failed grace a
unfolding with_grace fill_container_runtime_state list_eq ℕ_discrete
phase-failed no_container true st = refl
phase-failed no_container false st = refl
phase-failed no_task true st = refl
phase-failed no_task false st = refl
phase-failed no_status true st = refl
phase-failed no_status false st = refl
phase-failed (has_status status exit_status exit_time pid) grace st =
    elim (Bool-cases (grace && status == text "not_found")) [
      | inl fresh ↦ rw (fresh, with_grace)
      | inr seen ↦ rw (seen, with_grace) (status_phase-failed status)
    ]

module _ (probe : Text → Answer) (grace : Bool) where
  abbrev pub some_failed : Dict Text ContainerState → Bool
  some_failed = any (λ (name, st). answers_failed grace (probe st.id))

  abbrev pub every_running : Dict Text ContainerState → Bool
  every_running = all (λ (name, st). answers_running (probe st.id))

  tally_all-has_error :
      (m : Dict Text ContainerState) (t : Tally)
      → (tally_all (refresh_containers probe grace m) t).has_error ≡ (t.has_error || some_failed m)
  unfolding tally_all refresh_containers tally next_state
  tally_all-has_error [] t = ground arith
  tally_all-has_error ((name, st) ∷ m) t =
      tally_all-has_error m (tally (next_state probe grace st) t)
      ∙ rw (phase-failed (probe st.id) grace st) (or_assoc t.has_error _ _)

  tally_all-all_running :
      (m : Dict Text ContainerState) (t : Tally)
      → (tally_all (refresh_containers probe grace m) t).all_running
        ≡ (t.all_running && every_running m)
  unfolding tally_all refresh_containers tally next_state
  tally_all-all_running [] t = ground arith
  tally_all-all_running ((name, st) ∷ m) t =
      tally_all-all_running m (tally (next_state probe grace st) t)
      ∙ rw (phase-running (probe st.id) grace st) (and_assoc t.all_running _ _)

-- Whether the stored error is final.
abbrev pub is_final : Sandbox → Bool
is_final sbx = is_error_phase sbx.phase && not (sbx.error == [])

-- The phase that is reported: a final error, an empty plan and a deletion keep the stored phase;
-- otherwise it is an error if some container has failed, running if every container runs, and
-- creating in between. It rests on the containers' answers alone.
pub refresh-phase :
    (probe : Text → Answer) (now : ℕ) (sbx : Sandbox)
    → let grace = in_create_grace now sbx in
      (refresh_sandbox_runtime_state probe now sbx).phase ≡ (
        if is_final sbx || (is_empty sbx.containers || is_deleting sbx.phase)
        then sbx.phase
        else if some_failed probe grace sbx.containers
        then SandboxPhase.error
        else if every_running probe grace sbx.containers
        then SandboxPhase.running
        else SandboxPhase.creating)
unfolding refresh_sandbox_runtime_state settle
refresh-phase probe now sbx = ground (
  arith,
  tally_all-has_error probe (in_create_grace now sbx) sbx.containers no_tally,
  tally_all-all_running probe (in_create_grace now sbx) sbx.containers no_tally,
)

-- A Boolean function of a list that no step of a permutation changes.
module _ {ℓ} {A : Type ℓ} (p : A → Bool) where
  any-permᴰ : {xs ys : List A} → Permᴰ xs ys → any p xs ≡ any p ys
  any-permᴰ Permᴰ.nil = refl
  any-permᴰ (Permᴰ.cons e h) = ap₂ ◌||◌ (ap p e) (any-permᴰ h)
  any-permᴰ (Permᴰ.swap {a} {b} {l} e f) =
      rw (← e, ← f)
        (ground (
          arith,
          or_comm (p a) (p b),
          or_assoc (p a) (p b) (any p l),
          or_assoc (p b) (p a) (any p l),
        ))
  any-permᴰ (Permᴰ.trans h k) = any-permᴰ h ∙ any-permᴰ k

  all-permᴰ : {xs ys : List A} → Permᴰ xs ys → all p xs ≡ all p ys
  all-permᴰ Permᴰ.nil = refl
  all-permᴰ (Permᴰ.cons e h) = ap₂ ◌&&◌ (ap p e) (all-permᴰ h)
  all-permᴰ (Permᴰ.swap {a} {b} {l} e f) =
      rw (← e, ← f)
        (ground (
          arith,
          and_comm (p a) (p b),
          and_assoc (p a) (p b) (all p l),
          and_assoc (p b) (p a) (all p l),
        ))
  all-permᴰ (Permᴰ.trans h k) = all-permᴰ h ∙ all-permᴰ k

is_empty-permᴰ {ℓ} : {A : Type ℓ} {xs ys : List A} → Permᴰ xs ys → is_empty xs ≡ is_empty ys
is_empty-permᴰ Permᴰ.nil = refl
is_empty-permᴰ (Permᴰ.cons e h) = refl
is_empty-permᴰ (Permᴰ.swap e f) = refl
is_empty-permᴰ (Permᴰ.trans h k) = is_empty-permᴰ h ∙ is_empty-permᴰ k

-- Go iterates over the containers in an order of its own: the phase that is reported is the same in
-- every order.
pub refresh-phase_perm :
    (probe : Text → Answer) (now : ℕ) (sbx : Sandbox) (shuffled : Dict Text ContainerState)
    → Perm sbx.containers shuffled
    → (refresh_sandbox_runtime_state probe now sbx).phase
      ≡ (refresh_sandbox_runtime_state probe now (record sbx { containers = shuffled })).phase
unfolding in_create_grace
refresh-phase_perm probe now sbx shuffled order =
    let grace = in_create_grace now sbx in
    let failed : some_failed probe grace sbx.containers ≡ some_failed probe grace shuffled =
      ∥∥₁_elim order (Bool-set _ _) (any-permᴰ _) in
    let running : every_running probe grace sbx.containers ≡ every_running probe grace shuffled =
      ∥∥₁_elim order (Bool-set _ _) (all-permᴰ _) in
    let empty : is_empty sbx.containers ≡ is_empty shuffled =
      ∥∥₁_elim order (Bool-set _ _) is_empty-permᴰ in
    refresh-phase probe now sbx
    ∙ (ground (arith, failed, running, empty)
        ∙ sym (refresh-phase probe now (record sbx { containers = shuffled })))
