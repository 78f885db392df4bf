-- ===== src/Sandbox/Isolation/Refinement.antt =====
-- The service implements a map from ids to sandboxes.
use go_firecracker_container.Base.{
  ◌≢◌, [], ◌≡◌, ◌≢◌, sym, ◌∙◌, ap, Bool, none, inl, inr, ◌==◌, nat_eq, list_eq, arith,
  if◌then◌else◌, Bool-cases, ==-self, eq_of_==,
}
use go_firecracker_container.Base.Text.{Text}
use go_firecracker_container.Model.{Error, Result, ok, err, Sandbox, CreateSandboxRequest}
use go_firecracker_container.Machine.{Context}
use go_firecracker_container.Store
use go_firecracker_container.Base.Paths.{IsPlain}
use go_firecracker_container.Sandbox.World.{Host, World}
use go_firecracker_container.Sandbox.Provision.{load, acquire}
use go_firecracker_container.Sandbox.Provision.Outcome.{ok-injective}
use go_firecracker_container.Sandbox.Lifecycle.{create_sandbox, delete_sandbox}
use go_firecracker_container.Sandbox.Lifecycle.Creation.{create_sandbox_stores}
use go_firecracker_container.Sandbox.Lifecycle.Deletion.{delete_sandbox_forgets}
use go_firecracker_container.Sandbox.Isolation.Operations.{
  create_sandbox-IsIsolated, delete_sandbox-IsIsolated,
}

-- The abstract service: what is stored under each id.
abbrev pub View : Type 0
View = Text → Result Sandbox

abbrev pub put : Text → Sandbox → View → View
put id s v j = if j == id then ok s else v j

abbrev pub drop : Text → View → View
drop id v j = if j == id then err Error.not_exist else v j

abbrev pub view : (H : Host) → World H → View
view H w j = load H j w

-- A view that is known at one id and the same elsewhere.
view_at :
    (id j : Text) (a : Result Sandbox) (v u : View)
    → u id ≡ a
    → (j ≢ id → u j ≡ v j)
    → u j ≡ (if j == id then a else v j)
view_at id j a v u here there = elim (Bool-cases (j == id)) [
  | inl p ↦ rw p (ap u (eq_of_== j id p) ∙ here)
  | inr p ↦ rw p (there (λ h. absurd (ground (arith, p, h, ==-self id))))
]

module _ (H : Host) (L : Store.IsLawful H.files) (K : Store.IsFaithful H.codec) where
  -- A creation that succeeds is the insertion of the sandbox that it returns into the map of what is
  -- stored, for ids that name one entry of a directory: not empty, without slashes, not "." or "..".
  pub create_sandbox_refines :
      (ctx : Context H.Machine) (req : CreateSandboxRequest) (async : Bool) (w : World H)
      (s : Sandbox) (j : Text)
      → IsPlain req.id
      → IsPlain j
      → (create_sandbox H ctx req async w).1 ≡ ok s
      → view H (create_sandbox H ctx req async w).0 j ≡ put req.id s (view H w) j
  create_sandbox_refines ctx req async w s j plain q h =
      let (valid, absent, (stored, own, phase)) = create_sandbox_stores H L K ctx req async w s h in
      view_at req.id j (ok s) (view H w) (view H (create_sandbox H ctx req async w).0) stored
        ((create_sandbox-IsIsolated H L ctx req async w plain).1 j q)

  -- If the store's removals are accepted and its path is not empty, then a deletion of a stored
  -- sandbox whose lock is free is the removal of its id from the map of what is stored, for ids that
  -- name one entry of a directory: not empty, without slashes, not "." or "..".
  pub delete_sandbox_refines :
      ((b id : Text) (s : H.files.State) → (Store.delete H.files H.codec b id s).1 ≡ none)
      → (id : Text) (sbx : Sandbox) (f : H.locks.Handle) (w : World H) (j : Text)
      → w.memory.cfg.state_base_dir ≢ []
      → IsPlain id
      → IsPlain j
      → (acquire H id w).1 ≡ ok f
      → load H id w ≡ ok sbx
      → sbx.id ≡ id
      → view H (delete_sandbox H id w).0 j ≡ drop id (view H w) j
  delete_sandbox_refines removes id sbx f w j based plain q got stored same =
      view_at id j (err Error.not_exist) (view H w) (view H (delete_sandbox H id w).0)
        (delete_sandbox_forgets H L K removes id sbx f w based got stored same).0
        ((delete_sandbox-IsIsolated H L id w plain
            (λ t r. ap (λ u. u.id) (ok-injective (sym r ∙ stored)) ∙ same)).1
          j q)
