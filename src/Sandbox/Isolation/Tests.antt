-- ===== src/Sandbox/Isolation/Tests.antt =====
-- The map of what is stored, on a host in memory.
use go_firecracker_container.Base.{◌≡◌, refl, true, none, [], contains, nat_eq, list_eq, ℕ_discrete}
use go_firecracker_container.Base.Paths
use go_firecracker_container.Base.Text.{text, has_prefix}
use go_firecracker_container.Base.Dict
use go_firecracker_container.Model.{SandboxPhase, Sandbox}
use go_firecracker_container.Model.Actions.{◌>>◌}
use go_firecracker_container.Model.Validate.{validate}
use go_firecracker_container.Store
use go_firecracker_container.Store.Memory.{memory_files-IsLawful, plain-IsFaithful}
use go_firecracker_container.Sandbox.Config.{default_config}
use go_firecracker_container.Sandbox.Ports.{ensure_host_ports_available}
use go_firecracker_container.Sandbox.Phase.{new_sandbox_state}
use go_firecracker_container.Sandbox.Locks.{acquire_sandbox_lock, lock_rounds, release_lock}
use go_firecracker_container.Sandbox.Orphans.{has_runtime_artifacts, has_container_of}
use go_firecracker_container.Sandbox.World.{World}
use go_firecracker_container.Sandbox.Lifecycle.{
  create_sandbox, create_locked, create_unless_stored, create_new, create_with_ports,
  save_and_provision, clear_leftovers, reserve_ports, delete_sandbox,
}
use go_firecracker_container.Sandbox.Reconcile.{reconcile_stored}
use go_firecracker_container.Sandbox.Demo.{
  box_host, stored, lock_is_free, removes, sandbox_in, world_with, busy_box, request_for,
}
use go_firecracker_container.Sandbox.Isolation.{IsIsolated}
use go_firecracker_container.Sandbox.Isolation.Operations.{reconcile_stored-IsIsolated}
use go_firecracker_container.Sandbox.Isolation.Refinement.{
  put, drop, view, create_sandbox_refines, delete_sandbox_refines,
}

abbrev running_world : World box_host
running_world = world_with SandboxPhase.running busy_box

abbrev new_sandbox : Sandbox
new_sandbox = new_sandbox_state default_config 1000 (request_for (text "new"))

create_sandbox_refines_example :
    view box_host
      (create_sandbox box_host (λ s. none) (request_for (text "new")) true running_world).0
      (text "demo")
    ≡ put (text "new") new_sandbox (view box_host running_world) (text "demo")
unfolding create_sandbox create_locked create_unless_stored create_new create_with_ports
    save_and_provision acquire_sandbox_lock lock_rounds Dict.lookup validate list_eq contains
    ℕ_discrete Store.load Store.decode_read clear_leftovers has_runtime_artifacts has_container_of
    has_prefix Dict.insert ensure_host_ports_available Store.save Store.write_encoded ◌>>◌
    reserve_ports release_lock Dict.delete Paths.join_path Paths.clean Paths.render Paths.steps
    Paths.step Paths.back Paths.elements Paths.cut Paths.relative Paths.is_rooted Store.state_path
    Store.sandbox_dir Paths.is_plain
create_sandbox_refines_example =
    create_sandbox_refines box_host memory_files-IsLawful plain-IsFaithful (λ s. none)
      (request_for (text "new")) true running_world new_sandbox (text "demo") refl refl refl

delete_sandbox_refines_example :
    view box_host (delete_sandbox box_host (text "demo") running_world).0 (text "new")
    ≡ drop (text "demo") (view box_host running_world) (text "new")
unfolding contains list_eq ℕ_discrete Paths.is_plain
delete_sandbox_refines_example =
    delete_sandbox_refines box_host memory_files-IsLawful plain-IsFaithful removes (text "demo")
      (sandbox_in SandboxPhase.running) (text "/var/lib/sandboxd/locks/demo.lock", 0) running_world
      (text "new") (λ e. cc) refl refl (lock_is_free SandboxPhase.running)
      (stored SandboxPhase.running busy_box) refl

reconcile_stored-IsIsolated_example :
    IsIsolated box_host
      (text "demo")
      running_world
      (reconcile_stored box_host [] (sandbox_in SandboxPhase.running) running_world)
unfolding contains list_eq ℕ_discrete Paths.is_plain
reconcile_stored-IsIsolated_example =
    reconcile_stored-IsIsolated box_host memory_files-IsLawful [] (sandbox_in SandboxPhase.running)
      running_world refl
