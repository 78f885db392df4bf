-- ===== src/Sandbox/Lifecycle/Tests.antt =====
-- The life cycle of sandboxes on a host in memory.
use go_firecracker_container.Base.{
  ◌≡◌, ◌≢◌, refl, true, false, none, [], ◌∷◌, contains, nat_eq, list_eq, ℕ_discrete,
}
use go_firecracker_container.Base.Paths
use go_firecracker_container.Base.Text.{text, has_prefix}
use go_firecracker_container.Base.Dict
use go_firecracker_container.Model.{Error, ok, err, SandboxPhase, Sandbox, CreateSandboxRequest}
use go_firecracker_container.Model.Actions.{◌>>◌}
use go_firecracker_container.Model.Validate.{validate}
use go_firecracker_container.Store
use go_firecracker_container.Store.Memory.{memory_files-IsLawful, plain-IsFaithful}
use go_firecracker_container.Sandbox.Config.{default_config}
use go_firecracker_container.Sandbox.Phase.{new_sandbox_state}
use go_firecracker_container.Sandbox.Locks.{acquire_sandbox_lock, lock_rounds, release_lock}
use go_firecracker_container.Sandbox.Orphans.{has_runtime_artifacts, has_container_of}
use go_firecracker_container.Sandbox.Provision.{load}
use go_firecracker_container.Sandbox.Lifecycle.{
  delete_sandbox, create_sandbox, create_locked, create_unless_stored, create_new,
  create_with_ports, save_and_provision, clear_leftovers, reserve_ports,
}
use go_firecracker_container.Sandbox.Lifecycle.Deletion.{HasForgotten, delete_sandbox_forgets}
use go_firecracker_container.Sandbox.Lifecycle.Creation.{
  IsStored, create_sandbox_stores, create_ports_refused,
}
use go_firecracker_container.Sandbox.Ports.{ensure_host_ports_available}
use go_firecracker_container.Sandbox.World.{World}
use go_firecracker_container.Base.Integer.{pos}
use go_firecracker_container.Sandbox.Lifecycle.ReturnedPorts.{
  AreReturned, create_sandbox_returns_ports,
}
use go_firecracker_container.Sandbox.Demo.{
  held, blocked, of_path, box_locks-Excludes, box_host, stored, lock_is_free, removes, sandbox_in,
  world_with, busy_box, request_for,
}

abbrev running_world : World box_host
running_world = world_with SandboxPhase.running busy_box

delete_sandbox_forgets_example :
    let w = (delete_sandbox box_host (text "demo") running_world).0 in
    (load box_host (text "demo") w ≡ err Error.not_exist) × HasForgotten (text "demo") w.memory
delete_sandbox_forgets_example =
    delete_sandbox_forgets box_host memory_files-IsLawful plain-IsFaithful removes (text "demo")
      (sandbox_in SandboxPhase.running) (text "/var/lib/sandboxd/locks/demo.lock", 0) running_world
      (λ e. cc) (lock_is_free SandboxPhase.running) (stored SandboxPhase.running busy_box) refl

create_sandbox_stores_example :
    (validate (request_for (text "new")) ≡ none)
    × (load box_host (text "new") running_world ≡ err Error.not_exist)
    × IsStored box_host
        (text "new")
        true
        (create_sandbox box_host (λ s. none) (request_for (text "new")) true running_world)
        (new_sandbox_state default_config 1000 (request_for (text "new")))
unfolding create_sandbox create_locked create_unless_stored create_new create_with_ports
    save_and_provision acquire_sandbox_lock lock_rounds Dict.lookup validate list_eq contains
    ℕ_discrete Store.load Store.decode_read clear_leftovers has_runtime_artifacts has_container_of
    has_prefix Dict.insert ensure_host_ports_available Store.save Store.write_encoded ◌>>◌
    reserve_ports release_lock Dict.delete Paths.join_path Paths.clean Paths.render Paths.steps
    Paths.step Paths.back Paths.elements Paths.cut Paths.relative Paths.is_rooted Store.state_path
    Store.sandbox_dir
create_sandbox_stores_example =
    create_sandbox_stores box_host memory_files-IsLawful plain-IsFaithful (λ s. none)
      (request_for (text "new")) true running_world
      (new_sandbox_state default_config 1000 (request_for (text "new"))) refl

create_ports_refused_example :
    (create_sandbox box_host (λ s. none) (request_for (text "_ports")) true running_world).1
    ≢ ok (sandbox_in SandboxPhase.creating)
unfolding has_runtime_artifacts has_container_of Dict.lookup has_prefix list_eq ℕ_discrete
    acquire_sandbox_lock lock_rounds Paths.join_path Paths.clean Paths.render Paths.steps Paths.step
    Paths.back Paths.elements Paths.cut Paths.relative Paths.is_rooted
create_ports_refused_example =
    create_ports_refused box_host held blocked of_path box_locks-Excludes (λ s. none)
      (request_for (text "_ports")) true running_world (sandbox_in SandboxPhase.creating) refl refl

abbrev publishing : CreateSandboxRequest
publishing = record (request_for (text "new")) {
  ports = record { host_port = pos 9090; container_port = pos 80; protocol = text "tcp" } ∷ [];
}

create_sandbox_returns_ports_example :
    AreReturned publishing running_world.memory
      (create_sandbox box_host (λ s. none) publishing false running_world).0.memory
create_sandbox_returns_ports_example =
    create_sandbox_returns_ports box_host (λ s. none) publishing false running_world
