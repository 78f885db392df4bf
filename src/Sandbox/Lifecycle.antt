-- ===== src/Sandbox/Lifecycle.antt =====
-- The life cycle of a sandbox in internal/sandbox/lifecycle.go: creation, deletion, and what the
-- service tells of its sandboxes. A deferred call runs at the end of each path behind it.
pub mod Deletion
pub mod Creation
pub mod ReturnedPorts
mod Tests
use go_firecracker_container.Base.{
  ℕ, ◌*◌, Bool, true, false, Option, none, some, List, [], ◌∷◌, ◌++◌, if◌then◌else◌,
}
use go_firecracker_container.Base.Text.{Text, text}
use go_firecracker_container.Model.{
  Error, message, Result, ok, err, SandboxPhase, Sandbox, CreateSandboxRequest, PortMapping,
}
use go_firecracker_container.Model.Actions.{◌>>◌, ignore}
use go_firecracker_container.Model.Validate.{validate}
use go_firecracker_container.Machine.{Context, with_timeout, error_text}
use go_firecracker_container.Store
use go_firecracker_container.Sandbox.Config.{seconds, Service}
use go_firecracker_container.Sandbox.Ports.{
  Listen, requested_keys, reserve_requested_ports, release_keys, release_reserved_ports,
  ensure_host_ports_available,
}
use go_firecracker_container.Sandbox.Phase.{set_sandbox_phase, new_sandbox_state}
use go_firecracker_container.Sandbox.Health.{clear_unhealthy}
use go_firecracker_container.Sandbox.Waits.{ensure_local_port_free}
use go_firecracker_container.Sandbox.World.{Host, World, Operation, on_machine, on_memory}
use go_firecracker_container.Sandbox.Artifacts.{cleanup_caches, delete_sandbox_from_state}
use go_firecracker_container.Sandbox.Orphans.{cleanup_orphan_runtime_sandbox, has_runtime_artifacts}
use go_firecracker_container.Sandbox.Provision.{
  load, save, now, refreshed, base_dir, provision_sandbox_sync, acquire, unlock,
}

-- The text of an error, if there is one.
abbrev pub reason_of : Option Error → Option Text
reason_of none = none
reason_of (some e) = some (error_text e)

unfoldable pub release_ports : Text → Service → Service
release_ports id s = record s { reserved_ports = release_reserved_ports id s.reserved_ports }

unfoldable pub reserve_ports : Text → List PortMapping → Service → Service
reserve_ports id ps s = record s { reserved_ports = reserve_requested_ports id ps s.reserved_ports }

-- The function that `reserveRequestedPorts` returns.
unfoldable pub give_back_ports : Text → List PortMapping → Service → Service
give_back_ports id ps s = record s {
  reserved_ports = release_keys id (requested_keys ps) s.reserved_ports;
}

module _ (H : Host) where
  abbrev pub list : World H → Result (List Sandbox)
  list w = Store.list H.files H.codec (base_dir H w) w.files

  abbrev pub listen : World H → Listen
  listen w port proto = reason_of (ensure_local_port_free H.clock H.sockets port proto w.machine)

  -- What is left on the host under the id of a new sandbox goes.
  unfoldable pub clear_leftovers : Text → World H → World H
  clear_leftovers id w =
      if has_runtime_artifacts H w.memory.cfg.namespace id w.machine
      then (on_machine H (cleanup_caches H w.memory.cfg.namespace id)
          (cleanup_orphan_runtime_sandbox H id w).0).0
      else w

  -- The new state is saved; a synchronous call provisions it.
  unfoldable pub save_and_provision :
      Context H.Machine → Bool → CreateSandboxRequest → Operation H Sandbox
  save_and_provision ctx async req w =
      let sbx = new_sandbox_state w.memory.cfg (now H w) req in
      let (v, e) = save H sbx w in
      elim e [
        | some e ↦ (v, err e)
        | none ↦ if async then (v, ok sbx) else provision_sandbox_sync H ctx sbx req v
      ]

  -- From the check of the ports on, under the lock `g` of the ports.
  unfoldable pub create_with_ports :
      Context H.Machine → Bool → CreateSandboxRequest → H.locks.Handle → Operation H Sandbox
  create_with_ports ctx async req g w =
      elim (ensure_host_ports_available req.id req.ports (list w) w.memory.reserved_ports
        (listen w)) [
          | some e ↦ (unlock H g w, err e)
          | none ↦
              let reserved = unlock H g (on_memory H (reserve_ports req.id req.ports) w) in
              let (v, r) = save_and_provision ctx async req reserved in
              (on_memory H (give_back_ports req.id req.ports) v, r)
        ]

  unfoldable pub create_new : Context H.Machine → Bool → CreateSandboxRequest → Operation H Sandbox
  create_new ctx async req w =
      let (v, r) = acquire H (text "_ports") (clear_leftovers req.id w) in
      elim r [ err e ↦ (v, err e) | ok g ↦ create_with_ports ctx async req g v ]

  -- `errors.Is(err, os.ErrNotExist)`
  unfoldable pub create_unless_stored :
      Context H.Machine → Bool → CreateSandboxRequest → Operation H Sandbox
  create_unless_stored ctx async req w = elim (load H req.id w) [
    | ok sbx ↦ (w, err (message (text "sandbox already exists: " ++ req.id)))
    | err (message m) ↦ (w, err (message m))
    | err Error.not_exist ↦ create_new ctx async req w
  ]

  unfoldable pub create_locked :
      Context H.Machine → Bool → CreateSandboxRequest → Operation H Sandbox
  create_locked ctx async req w = elim (validate req) [
    | some e ↦ (w, err e)
    | none ↦ create_unless_stored ctx async req w
  ]

  unfoldable pub create_sandbox :
      Context H.Machine → CreateSandboxRequest → Bool → Operation H Sandbox
  create_sandbox ctx req async w =
      let op_ctx = with_timeout H.clock ctx (seconds 90) w.machine in
      let (v, r) = acquire H req.id w in
      elim r [
        | err e ↦ (v, err e)
        | ok f ↦ let (u, q) = create_locked op_ctx async req v in (unlock H f u, q)
      ]

  -- The deletion of a stored sandbox.
  unfoldable pub delete_stored : Text → Sandbox → World H → World H × Option Error
  delete_stored id sbx w =
      let marked = (save H (set_sandbox_phase (now H w) SandboxPhase.deleting [] sbx) w).0 in
      let (v, e) =
        delete_sandbox_from_state H (set_sandbox_phase (now H w) SandboxPhase.deleting [] sbx)
          marked in
      (on_memory H (λ s. clear_unhealthy id (release_ports id s)) v, e)

  unfoldable pub delete_locked : Text → World H → World H × Option Error
  delete_locked id w = elim (load H id w) [
    | ok sbx ↦ delete_stored id sbx w
    | err (message m) ↦ (w, some (message m))
    | err Error.not_exist ↦ (on_memory H (release_ports id) w, none)
  ]

  unfoldable pub delete_sandbox : Text → World H → World H × Option Error
  delete_sandbox id w =
      let (v, r) = acquire H id w in
      elim r [ err e ↦ (v, some e) | ok f ↦ let (u, e) = delete_locked id v in (unlock H f u, e) ]

  -- `copySandbox` copies what `refreshSandboxRuntimeState` changes: values are copies.
  unfoldable pub refresh_all : World H → List Sandbox → List Sandbox
  refresh_all w [] = []
  refresh_all w (sbx ∷ all) = refreshed H w sbx ∷ refresh_all w all

  unfoldable pub list_sandboxes : World H → Result (List Sandbox)
  list_sandboxes w = elim (list w) [ err e ↦ err e | ok all ↦ ok (refresh_all w all) ]

  unfoldable pub get_sandbox : Text → World H → Result Sandbox
  get_sandbox id w = elim (load H id w) [ err e ↦ err e | ok sbx ↦ ok (refreshed H w sbx) ]
