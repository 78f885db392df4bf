-- ===== src/Sandbox/Lifecycle/Deletion.antt =====
-- What a deletion leaves.
use mathlib.Core.Path.{subst}
use go_firecracker_container.Base.{◌≡◌, ◌≢◌, ◌∙◌, ap, none, some, [], ◌∷◌, nat_eq, list_eq, arith}
use go_firecracker_container.Base.Text.{Text}
use go_firecracker_container.Base.Dict
use go_firecracker_container.Model.{Error, ok, err, SandboxPhase, Sandbox}
use go_firecracker_container.Store
use go_firecracker_container.Store.Laws.{load-delete}
use go_firecracker_container.Sandbox.Config.{Service}
use go_firecracker_container.Sandbox.Ports.{Reserved, release_reserved_ports}
use go_firecracker_container.Sandbox.Phase.{set_sandbox_phase}
use go_firecracker_container.Sandbox.Health.{clear_unhealthy}
use go_firecracker_container.Sandbox.World.{Host, World}
use go_firecracker_container.Sandbox.Artifacts.{
  delete_sandbox_runtime_artifacts, delete_sandbox_from_state,
}
use go_firecracker_container.Sandbox.Provision.{load, save, now, acquire}
use go_firecracker_container.Sandbox.Provision.Outcome.{artifacts-keep}
use go_firecracker_container.Sandbox.Lifecycle.{
  release_ports, delete_stored, delete_locked, delete_sandbox,
}

release_reserved_ports-owner :
    (id : Text) (reserved : Reserved) (k : Text)
    → Dict.lookup k (release_reserved_ports id reserved) ≢ some id
unfolding release_reserved_ports Dict.lookup
release_reserved_ports-owner id [] k h = cc
release_reserved_ports-owner id ((j, owner) ∷ reserved) k h =
    ground (arith, h, release_reserved_ports-owner id reserved k)

-- The memory of the service knows nothing of the sandbox.
abbrev pub HasForgotten : Text → Service → Type 0
HasForgotten id s =
    ((k : Text) → Dict.lookup k s.reserved_ports ≢ some id)
    × (Dict.lookup id s.unhealthy_since ≡ none)
    × (Dict.lookup id s.unhealthy_hits ≡ none)

clear-HasForgotten :
    (id : Text) (s : Service) → HasForgotten id (clear_unhealthy id (release_ports id s))
unfolding clear_unhealthy release_ports
clear-HasForgotten id s = (
  release_reserved_ports-owner id s.reserved_ports,
  ground (arith, Dict.lookup-delete id id s.unhealthy_since),
  ground (arith, Dict.lookup-delete id id s.unhealthy_hits),
)

module _ (H : Host) (L : Store.IsLawful H.files) (K : Store.IsFaithful H.codec)
    (removes : (b id : Text) (s : H.files.State)
      → (Store.delete H.files H.codec b id s).1 ≡ none) where
  pub delete_sandbox_from_state-load :
      (sbx : Sandbox) (w : World H)
      → w.memory.cfg.state_base_dir ≢ []
      → load H sbx.id (delete_sandbox_from_state H sbx w).0 ≡ err Error.not_exist
  unfolding delete_sandbox_from_state
  delete_sandbox_from_state-load sbx w based =
      let v = (delete_sandbox_runtime_artifacts H sbx w).0 in
      ap
        (λ (m : Service).
          Store.load H.files H.codec m.cfg.state_base_dir sbx.id
            (Store.delete H.files H.codec w.memory.cfg.state_base_dir sbx.id v.files).0)
        (artifacts-keep H sbx w).1
      ∙ load-delete H.files H.codec L K w.memory.cfg.state_base_dir sbx.id v.files based
          (removes _ _ _)

  delete_stored-forgets :
      (id : Text) (sbx : Sandbox) (w : World H)
      → w.memory.cfg.state_base_dir ≢ []
      → sbx.id ≡ id
      → (load H id (delete_stored H id sbx w).0 ≡ err Error.not_exist)
        × HasForgotten id (delete_stored H id sbx w).0.memory
  unfolding delete_stored set_sandbox_phase clear_unhealthy release_ports
  delete_stored-forgets id sbx w based same =
      let deleting = set_sandbox_phase (now H w) SandboxPhase.deleting [] sbx in
      let v = (delete_sandbox_from_state H deleting (save H deleting w).0).0 in
      (
        subst (λ i. load H i v ≡ err Error.not_exist) same
            (delete_sandbox_from_state-load deleting (save H deleting w).0 based),
        clear-HasForgotten id v.memory,
      )

  -- If the store's removals are accepted and its path is not empty, then deleting a stored sandbox
  -- whose lock is free removes its state, all its reservations of ports and the memory of its ill health, whatever errors the
  -- removal of its containers, rules and virtual machine meets.
  pub delete_sandbox_forgets :
      (id : Text) (sbx : Sandbox) (f : H.locks.Handle) (w : World H)
      → w.memory.cfg.state_base_dir ≢ []
      → (acquire H id w).1 ≡ ok f
      → load H id w ≡ ok sbx
      → sbx.id ≡ id
      → (load H id (delete_sandbox H id w).0 ≡ err Error.not_exist)
        × HasForgotten id (delete_sandbox H id w).0.memory
  unfolding delete_sandbox delete_locked
  delete_sandbox_forgets id sbx f w based got stored same =
      rw (got, delete_sandbox, stored, delete_locked)
        (delete_stored-forgets id sbx (acquire H id w).0 based same)
