-- ===== src/Sandbox/Phase.antt =====
-- The phases of a sandbox and of its containers: internal/sandbox/state.go, and the part of
-- internal/sandbox/runtime.go that reads the state of the runtime.
pub mod Refresh
pub mod State
mod Tests
use go_firecracker_container.Base.{
  ℕ, ◌+◌, Bool, true, false, not, ◌&&◌, ◌||◌, Option, none, some, List, [], ◌∷◌, ◌++◌, ltb,
  is_empty, ◌==◌, nat_eq, list_eq, if◌then◌else◌,
}
use go_firecracker_container.Base.Text.{Text, text}
use go_firecracker_container.Base.Dict
use go_firecracker_container.Base.Dict.{Dict}
use go_firecracker_container.Model.{
  SandboxPhase, ContainerPhase, ContainerState, Sandbox, CreateContainerRequest,
  CreateSandboxRequest,
}
use go_firecracker_container.Sandbox.Config.{Config, ready_timeout, cni_conf_path}

unfoldable pub is_error_phase : SandboxPhase → Bool
is_error_phase SandboxPhase.error = true
is_error_phase _ = false

unfoldable pub set_sandbox_phase : ℕ → SandboxPhase → Text → Sandbox → Sandbox
set_sandbox_phase now phase message sbx = record sbx {
  phase = phase;
  error =
      if not (message == []) then message else if not (is_error_phase phase) then [] else sbx.error;
  updated_at = now;
}

unfoldable pub new_container_state : Text → CreateContainerRequest → ContainerState
new_container_state sandbox_id c = record {
  id = sandbox_id ++ b'-' ∷ c.name;
  name = c.name;
  phase = ContainerPhase.creating;
  error = [];
  image = c.image;
  args = c.args;
  env = c.env;
  snapshot_key = [];
  task_pid = 0;
  runtime = text "aws.firecracker";
  task_status = [];
  exit_status = 0;
  exit_time = [];
}

unfoldable pub add_containers :
    Text → List CreateContainerRequest → Dict Text ContainerState → Dict Text ContainerState
add_containers sandbox_id [] m = m
add_containers sandbox_id (c ∷ cs) m =
    add_containers sandbox_id cs (Dict.insert c.name (new_container_state sandbox_id c) m)

unfoldable pub new_sandbox_state : Config → ℕ → CreateSandboxRequest → Sandbox
new_sandbox_state cfg now req = record {
  id = req.id;
  phase = SandboxPhase.creating;
  error = [];
  namespace = cfg.namespace;
  ip = [];
  subnet_cidr = cfg.subnet_cidr;
  bridge_name = cfg.bridge_interface;
  egress = req.egress;
  ports = req.ports;
  containers = add_containers req.id req.containers [];
  cni_conf_path = cni_conf_path;
  created_at = now;
  updated_at = now;
}

unfoldable pub task_status_to_container_phase : Text → ContainerPhase
task_status_to_container_phase status =
    if status == text "running"
    then ContainerPhase.running
    else if status == text "created"
    then ContainerPhase.creating
    else if status == text "stopped" || (status == text "paused" || status == text "pausing")
    then ContainerPhase.stopped
    else ContainerPhase.unknown

-- What containerd answers about a container: `LoadContainer` fails, `Task` fails, `Status` fails, or
-- a status with the exit time as text, "" for none.
pub data Answer : Type 0 where
  no_container no_task no_status : Answer
  has_status : Text → ℕ → Text → ℕ → Answer

unfoldable pub fill_container_runtime_state : Answer → ContainerState → ContainerState
fill_container_runtime_state no_container st = record st {
  task_status = text "not_found";
  phase = ContainerPhase.error;
  error = text "container not found";
}
fill_container_runtime_state no_task st = record st {
  task_status = text "stopped";
  phase = ContainerPhase.stopped;
  error = [];
}
fill_container_runtime_state no_status st = record st {
  task_status = text "unknown";
  phase = ContainerPhase.error;
  error = text "failed to read task status";
}
fill_container_runtime_state (has_status status exit_status exit_time pid) st = record st {
  task_status = status;
  error = [];
  phase = task_status_to_container_phase status;
  exit_status = exit_status;
  exit_time = if exit_time == [] then st.exit_time else exit_time;
  task_pid = pid;
}

-- A container that is not there yet, in the time of grace.
unfoldable pub with_grace : Bool → ContainerState → ContainerState
with_grace grace st =
    if grace && st.task_status == text "not_found"
    then record st { phase = ContainerPhase.creating; error = []; task_status = text "creating" }
    else st

abbrev pub is_failed : ContainerPhase → Bool
is_failed ContainerPhase.error = true
is_failed _ = false

abbrev pub is_running : ContainerPhase → Bool
is_running ContainerPhase.running = true
is_running _ = false

-- What the loop over the containers collects.
pub record Tally : Type 0 where
  pub has_error : Bool
  pub sandbox_err : Text
  pub all_running : Bool

unfoldable pub tally : ContainerState → Tally → Tally
tally next t = record {
  has_error = t.has_error || is_failed next.phase;
  sandbox_err =
      if is_failed next.phase && (t.sandbox_err == [] && not (next.error == []))
      then next.error
      else t.sandbox_err;
  all_running = t.all_running && is_running next.phase;
}

unfoldable pub next_state : (Text → Answer) → Bool → ContainerState → ContainerState
next_state probe grace st = with_grace grace (fill_container_runtime_state (probe st.id) st)

unfoldable pub refresh_containers :
    (Text → Answer) → Bool → Dict Text ContainerState → Dict Text ContainerState
refresh_containers probe grace [] = []
refresh_containers probe grace ((name, st) ∷ m) =
    (name, next_state probe grace st) ∷ refresh_containers probe grace m

unfoldable pub tally_all : Dict Text ContainerState → Tally → Tally
tally_all [] t = t
tally_all ((name, st) ∷ m) t = tally_all m (tally st t)

abbrev pub is_creating : SandboxPhase → Bool
is_creating SandboxPhase.creating = true
is_creating _ = false

abbrev pub is_deleting : SandboxPhase → Bool
is_deleting SandboxPhase.deleting = true
is_deleting _ = false

abbrev no_tally : Tally
no_tally = record { has_error = false; sandbox_err = []; all_running = true }

-- The `switch` behind the loop.
unfoldable pub settle : Tally → Sandbox → Sandbox
settle t sbx =
    if is_deleting sbx.phase
    then sbx
    else if t.has_error
    then record sbx { phase = SandboxPhase.error; error = t.sandbox_err }
    else if t.all_running
    then record sbx { phase = SandboxPhase.running; error = [] }
    else record sbx { phase = SandboxPhase.creating }

unfoldable pub in_create_grace : ℕ → Sandbox → Bool
in_create_grace now sbx = is_creating sbx.phase && ltb now (sbx.created_at + ready_timeout)

unfoldable pub refresh_sandbox_runtime_state : (Text → Answer) → ℕ → Sandbox → Sandbox
refresh_sandbox_runtime_state probe now sbx =
    if is_error_phase sbx.phase && not (sbx.error == [])
    then record sbx { updated_at = now }
    else if is_empty sbx.containers
    then record sbx { updated_at = now }
    else let found = refresh_containers probe (in_create_grace now sbx) sbx.containers in
      let settled = settle (tally_all found no_tally) (record sbx { containers = found }) in
      record settled { updated_at = now }
