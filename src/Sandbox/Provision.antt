-- ===== src/Sandbox/Provision.antt =====
-- The provisioning of a sandbox: `provisionSandbox`, `provisionSandboxSync` and `markSandboxError` of
-- internal/sandbox/lifecycle.go. A stage acts on the world and on the sandbox that
-- the source changes in place.
pub mod Laws
pub mod Outcome
use go_firecracker_container.Base.{
  ℕ, ◌*◌, Bool, true, false, Option, none, some, List, [], ◌∷◌, ◌++◌, length, ◌==◌, nat_eq, list_eq,
  if◌then◌else◌,
}
use go_firecracker_container.Base.Text.{Text, text}
use go_firecracker_container.Base.Dict
use go_firecracker_container.Model.{
  Error, Result, ok, err, SandboxPhase, ContainerState, Sandbox, CreateContainerRequest,
  CreateSandboxRequest,
}
use go_firecracker_container.Model.Actions.{Action, ◌>>◌}
use go_firecracker_container.Machine.{
  Clock, Containerd, Context, TaskStatus, with_timeout, error_text,
}
use go_firecracker_container.Store
use go_firecracker_container.Sandbox.Config.{seconds}
use go_firecracker_container.Sandbox.Phase.{
  Answer, no_container, no_task, no_status, has_status, set_sandbox_phase,
  refresh_sandbox_runtime_state,
}
use go_firecracker_container.Sandbox.Runtime.{with_default_limits}
use go_firecracker_container.Sandbox.Vm.{create_vm}
use go_firecracker_container.Sandbox.Containers.{Plan, create_container}
use go_firecracker_container.Sandbox.Waits.{
  resolve_sandbox_ip, wait_sandbox_ready, wait_published_tcp_ready,
}
use go_firecracker_container.Sandbox.Locks.{acquire_sandbox_lock, release_lock}
use go_firecracker_container.Sandbox.World.{Host, World, Operation, on_machine, on_files}
use go_firecracker_container.Sandbox.Artifacts.{
  apply_sandbox_network_policy, apply_host_port_publish, delete_sandbox_runtime_artifacts,
}

unfoldable pub plan_of : Sandbox → CreateContainerRequest → Plan
plan_of sbx c = record {
  id = sbx.id ++ b'-' ∷ c.name;
  name = c.name;
  image = c.image;
  args = c.args;
  env = c.env;
  work_dir = c.work_dir;
  limits = with_default_limits c.limits;
  vm = sbx.id;
}

-- What the deferred function makes of the sandbox.
unfoldable pub failed_state : ℕ → Sandbox → Sandbox
failed_state now sbx =
    let t = set_sandbox_phase now SandboxPhase.error sbx.error sbx in
    if t.error == [] then record t { error = text "provision failed" } else t

module _ (H : Host) where
  abbrev pub base_dir : World H → Text
  base_dir w = w.memory.cfg.state_base_dir

  abbrev pub load : Text → World H → Result Sandbox
  load id w = Store.load H.files H.codec (base_dir w) id w.files

  abbrev pub save : Sandbox → World H → World H × Option Error
  save sbx w = on_files H (Store.save H.files H.codec (base_dir w) sbx) w

  abbrev pub now : World H → ℕ
  now w = H.clock.now w.machine

  unfoldable pub answer_of_status : H.containerd.Task → Result TaskStatus → Answer
  answer_of_status task (err e) = no_status
  answer_of_status task (ok st) =
      has_status st.status st.exit_status st.exit_time (H.containerd.pid task)

  unfoldable pub answer_of : H.Machine → Text → Answer
  answer_of s id = elim (H.containerd.load_container id s) [
    | err e ↦ no_container
    | ok ctr ↦ elim (H.containerd.find_task ctr s) [
      | err e ↦ no_task
      | ok task ↦ answer_of_status task (H.containerd.status task s)
    ]
  ]

  abbrev pub refreshed : World H → Sandbox → Sandbox
  refreshed w sbx = refresh_sandbox_runtime_state (answer_of w.machine) (now w) sbx

  abbrev pub Stage : Type 0
  Stage = Action (World H × Sandbox)

  -- A step that leaves the sandbox as it is.
  abbrev pub stage : (Sandbox → World H → World H × Option Error) → Stage
  stage f (w, sbx) = let (v, e) = f sbx w in ((v, sbx), e)

  unfoldable pub create_containers : List CreateContainerRequest → Stage
  create_containers [] (w, sbx) = ((w, sbx), none)
  create_containers (c ∷ cs) (w, sbx) =
      let (v, r) =
        on_machine H
          (create_container H.clock H.containerd H.disk w.memory.cfg.namespace (plan_of sbx c)) w in
      elim r [
        | err e ↦ ((v, record sbx { error = error_text e }), some e)
        | ok st ↦
            create_containers cs
              (v, record sbx { containers = Dict.insert c.name st sbx.containers })
      ]

  unfoldable pub resolve_ip : Context H.Machine → Stage
  resolve_ip ctx (w, sbx) =
      let (v, r) =
        on_machine H
          (resolve_sandbox_ip H.clock H.disk H.cache
            (with_timeout H.clock ctx (seconds 15) w.machine) sbx.id)
          w in
      elim r [ err e ↦ ((v, sbx), some e) | ok ip ↦ ((v, record sbx { ip = ip }), none) ]

  unfoldable pub wait_ready : Context H.Machine → Stage
  wait_ready ctx = stage λ sbx w.
      on_machine H
        (wait_sandbox_ready H.clock H.containerd (with_timeout H.clock ctx (seconds 18) w.machine)
          sbx)
        w

  -- The end of a provisioning that has succeeded so far. Whether the ports answer is of no effect.
  unfoldable pub save_running : Stage
  save_running (w, sbx) =
      let v = (on_machine H (wait_published_tcp_ready H.clock H.sockets sbx) w).0 in
      let running = set_sandbox_phase (now v) SandboxPhase.running [] (refreshed v sbx) in
      stage save (v, running)

  unfoldable pub stages : Context H.Machine → CreateSandboxRequest → Stage
  stages ctx req = do
    stage (λ sbx. on_machine H (create_vm H.clock H.vms sbx.id (length req.containers)))
    create_containers req.containers
    resolve_ip ctx
    stage (apply_sandbox_network_policy H)
    wait_ready ctx
    stage (apply_host_port_publish H)
    save_running

  -- The deferred function, if the sandbox was not created.
  unfoldable pub roll_back : World H × Sandbox → World H
  roll_back (w, sbx) =
      let failed = failed_state (now w) sbx in
      (delete_sandbox_runtime_artifacts H failed (save failed w).0).0

  unfoldable pub provision_sandbox_sync :
      Context H.Machine → Sandbox → CreateSandboxRequest → Operation H Sandbox
  provision_sandbox_sync ctx sbx req w =
      let (end, r) = stages ctx req (w, sbx) in
      elim r [ none ↦ (end.0, ok end.1) | some e ↦ (roll_back end, err e) ]

  -- `err` is never nil where it is called.
  unfoldable pub mark_sandbox_error : Text → Error → World H → World H
  mark_sandbox_error id e w = elim (load id w) [
    | err x ↦ w
    | ok sbx ↦ (save (set_sandbox_phase (now w) SandboxPhase.error (error_text e) sbx) w).0
  ]

  abbrev pub unlock : H.locks.Handle → World H → World H
  unlock f w = record w { machine = release_lock H.clock H.locks w.memory.cfg.lock_dir f w.machine }

  abbrev pub acquire : Text → Operation H H.locks.Handle
  acquire id w = on_machine H (acquire_sandbox_lock H.clock H.locks w.memory.cfg.lock_dir id) w

  unfoldable pub provision_locked :
      Context H.Machine → Text → CreateSandboxRequest → World H → World H
  provision_locked ctx id req w = elim (load id w) [
    | err e ↦ w
    | ok sbx ↦
        let (v, r) = provision_sandbox_sync ctx sbx req w in
        elim r [ ok created ↦ v | err e ↦ mark_sandbox_error id e v ]
  ]

  -- The goroutine that `CreateSandboxAsync` starts.
  unfoldable pub provision_sandbox : Text → CreateSandboxRequest → World H → World H
  provision_sandbox id req w =
      let ctx = with_timeout H.clock (λ s. none) (seconds 120) w.machine in
      let (v, r) = acquire id w in
      elim r [ err e ↦ mark_sandbox_error id e v | ok f ↦ unlock f (provision_locked ctx id req v) ]
