-- ===== src/Http/Tests.antt =====
-- The routes on a host in memory.
use go_firecracker_container.Base.{◌≡◌, refl, []}
use go_firecracker_container.Base.Text.{text}
use go_firecracker_container.Model.{SandboxPhase}
use go_firecracker_container.Store.Memory.{memory_files-IsLawful, plain-IsFaithful}
use go_firecracker_container.Sandbox.World.{World}
use go_firecracker_container.Sandbox.Demo.{
  box_host, stored, lock_is_free, removes, sandbox_in, world_with, busy_box,
}
use go_firecracker_container.Http.{show_sandbox, remove_sandbox}
use go_firecracker_container.Http.Laws.{delete_then_show}

abbrev running_world : World box_host
running_world = world_with SandboxPhase.running busy_box

delete_then_show_example :
    (show_sandbox box_host []
      (text "demo")
      (remove_sandbox box_host [] (text "demo") running_world).0).code
    ≡ 404
delete_then_show_example =
    delete_then_show box_host [] memory_files-IsLawful plain-IsFaithful removes (text "demo")
      (sandbox_in SandboxPhase.running) (text "/var/lib/sandboxd/locks/demo.lock", 0) running_world
      (λ e. cc) (lock_is_free SandboxPhase.running) (stored SandboxPhase.running busy_box) refl
