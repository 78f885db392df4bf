-- ===== src/Sandbox/Phase/Tests.antt =====
-- A sandbox of two containers in the states of its life.
use mathlib.Core.List.{Permᴰ}
use go_firecracker_container.Base.{
  ◌≡◌, refl, true, ◌||◌, [], ◌∷◌, is_empty, contains, if◌then◌else◌, ◌==◌, nat_eq, list_eq,
  ℕ_discrete,
}
use go_firecracker_container.Base.Text.{Text, text}
use go_firecracker_container.Base.Dict.{Dict}
use go_firecracker_container.Base.Integer.{pos}
use go_firecracker_container.Model.{
  ContainerState, Sandbox, SandboxPhase, CreateContainerRequest, CreateSandboxRequest,
}
use go_firecracker_container.Model.Validate.{validate}
use go_firecracker_container.Model.Validate.Laws.{IsValid, validate_iff}
use go_firecracker_container.Sandbox.Config.{seconds}
use go_firecracker_container.Sandbox.Phase.{
  Answer, no_container, has_status, new_container_state, refresh_sandbox_runtime_state,
  refresh_containers, next_state, with_grace, fill_container_runtime_state,
  task_status_to_container_phase, tally_all, tally, settle, is_error_phase, in_create_grace,
  is_deleting,
}
use go_firecracker_container.Sandbox.Phase.Refresh.{
  is_final, some_failed, every_running, refresh-phase, refresh-phase_perm,
}

abbrev web : CreateContainerRequest
web = record {
  name = text "web";
  image = text "python:3.12";
  args = [];
  env = [];
  work_dir = [];
  limits = record { memory_bytes = pos 0; cpu_quota = pos 0; cpu_period = 0; pids_limit = pos 0 };
}

abbrev demo : CreateSandboxRequest
demo = record {
  id = text "demo";
  egress = true;
  containers = web ∷ record web { name = text "worker" } ∷ [];
  ports = [];
}

abbrev fresh : Sandbox
fresh = record {
  id = text "demo";
  phase = SandboxPhase.creating;
  error = [];
  namespace = text "sandbox-demo";
  ip = [];
  subnet_cidr = text "10.89.0.0/16";
  bridge_name = text "fc-br0";
  egress = true;
  ports = [];
  containers =
      (text "web", new_container_state (text "demo") web)
      ∷ (text "worker", new_container_state (text "demo") (record web { name = text "worker" }))
      ∷ [];
  cni_conf_path = [];
  created_at = 0;
  updated_at = 0;
}

abbrev all_run : Text → Answer
all_run id = has_status (text "running") 0 [] 42

abbrev worker_is_gone : Text → Answer
worker_is_gone id = if id == text "demo-worker" then no_container else all_run id

-- A container that is missing is an error only after the time of grace.
runs_refresh :
    ((refresh_sandbox_runtime_state all_run (seconds 1) fresh).phase ≡ SandboxPhase.running)
    × ((refresh_sandbox_runtime_state worker_is_gone (seconds 1) fresh).phase
        ≡ SandboxPhase.creating)
    × ((refresh_sandbox_runtime_state worker_is_gone (seconds 20) fresh).phase ≡ SandboxPhase.error)
    × ((refresh_sandbox_runtime_state worker_is_gone (seconds 20) fresh).error
        ≡ text "container not found")
unfolding refresh_sandbox_runtime_state refresh_containers next_state with_grace
    fill_container_runtime_state task_status_to_container_phase tally_all tally settle
    in_create_grace list_eq ℕ_discrete new_container_state is_error_phase
runs_refresh = (refl, refl, refl, refl)

refresh-phase_example : (refresh_sandbox_runtime_state worker_is_gone (seconds 20) fresh).phase ≡ (
    if is_final fresh || (is_empty fresh.containers || is_deleting fresh.phase)
    then fresh.phase
    else if some_failed worker_is_gone (in_create_grace (seconds 20) fresh) fresh.containers
    then SandboxPhase.error
    else if every_running worker_is_gone (in_create_grace (seconds 20) fresh) fresh.containers
    then SandboxPhase.running
    else SandboxPhase.creating)
refresh-phase_example = refresh-phase worker_is_gone (seconds 20) fresh

abbrev shuffled : Dict Text ContainerState
shuffled =
    (text "worker", new_container_state (text "demo") (record web { name = text "worker" }))
    ∷ (text "web", new_container_state (text "demo") web)
    ∷ []

refresh-phase_perm_example :
    (refresh_sandbox_runtime_state worker_is_gone (seconds 20) fresh).phase
    ≡ (refresh_sandbox_runtime_state worker_is_gone
        (seconds 20)
        (record fresh { containers = shuffled })).phase
refresh-phase_perm_example =
    refresh-phase_perm worker_is_gone (seconds 20) fresh shuffled ∣ Permᴰ.swap refl refl ∣₁

demo-IsValid : IsValid demo
unfolding validate contains list_eq ℕ_discrete
demo-IsValid = (validate_iff demo).0 refl
