-- ===== src/Sandbox/Containers.antt =====
-- The containers of internal/sandbox/runtime.go: `createContainer` and `stopAndDeleteContainer`, over
-- the clock, containerd and the disk. The contexts of the calls are left out. `%q` of an id or of an
-- image is the text in quotes: neither needs an escape.
pub mod Create
pub mod Delete
use go_firecracker_container.Base.{
  ℕ, zero, suc, ◌*◌, Bool, true, false, not, ◌&&◌, ◌||◌, Option, none, some, List, [], ◌∷◌, ◌++◌,
  map, is_empty, ◌==◌, nat_eq, list_eq, if◌then◌else◌,
}
use Prim.Native.String.{String}
use go_firecracker_container.Base.Text.{Text, text}
use go_firecracker_container.Base.Paths.{join_path}
use go_firecracker_container.Base.Integer.{to_uint64}
use go_firecracker_container.Model.{
  Error, message, Result, ok, err, ResourceLimits, ContainerState, ContainerPhase,
}
use go_firecracker_container.Model.Actions.{Action}
use go_firecracker_container.Machine.{
  Call, Clock, Containerd, Disk, ContainerSpec, SpecOption, image_config, no_new_privileges,
  default_seccomp, host_hosts, host_resolvconf, host_network, masked_paths, readonly_paths,
  memory_limit, pids_limit, cpu_cfs, annotation, process_args, env, process_cwd, error_text, says,
  milliseconds,
}
use go_firecracker_container.Sandbox.Runtime.{normalize_image}

unfoldable pub is_transient_runtime_err : Error → Bool
is_transient_runtime_err e =
    says e (text "vsock")
    || (says e (text "cannot start a container that has stopped")
        || (says e (text "failed to dial") || says e (text "connection refused")))

-- What the service asks for when it creates a container.
pub record Plan : Type 0 where
  pub id : Text
  pub name : Text
  pub image : Text
  pub args : List Text
  pub env : List Text
  pub work_dir : Text
  pub limits : ResourceLimits
  pub vm : Text

abbrev pub base_options : Plan → List SpecOption
base_options p =
    no_new_privileges
    ∷ default_seccomp
    ∷ host_hosts
    ∷ host_resolvconf
    ∷ masked_paths (
        map text
          ("/proc/acpi" ∷ "/proc/kcore" ∷ "/proc/keys" ∷ "/proc/timer_list" ∷ "/sys/firmware" ∷ []))
    ∷ readonly_paths (
        map text
          ("/proc/bus" ∷ "/proc/fs" ∷ "/proc/irq" ∷ "/proc/sys" ∷ "/proc/sysrq-trigger" ∷ []))
    ∷ memory_limit (to_uint64 p.limits.memory_bytes)
    ∷ pids_limit p.limits.pids_limit
    ∷ cpu_cfs p.limits.cpu_quota p.limits.cpu_period
    ∷ annotation (text "aws.firecracker.vm.id") p.vm
    ∷ host_network
    ∷ []

-- The options that a request adds.
unfoldable pub requested_options : Plan → List SpecOption
requested_options p =
    (if is_empty p.args then [] else process_args p.args ∷ [])
    ++ ((if is_empty p.env then [] else env p.env ∷ [])
        ++ (if p.work_dir == [] then [] else process_cwd p.work_dir ∷ []))

abbrev pub snapshotter : Text
snapshotter = text "devmapper"

abbrev pub snapshot_of : Text → Text
snapshot_of id = id ++ text "-snapshot"

abbrev pub failed_with : String → Text → Error → Error
failed_with what id e = message (text what ++ (b'"' ∷ (id ++ (text "\": " ++ error_text e))))

abbrev pub task_dir : Text → Text
task_dir namespace =
    join_path (text "/run/firecracker-containerd/io.containerd.runtime.v2.task" ∷ namespace ∷ [])

-- The error of `Unpack` counts unless it says that the image is unpacked.
unfoldable pub unpack_error : Text → Option Error → Option Error
unpack_error ref none = none
unpack_error ref (some e) =
    if says e (text "already exists")
    then none
    else some (
        message (
          text "unpack image \""
          ++ (ref ++ (text "\" with snapshotter \"devmapper\": " ++ error_text e))))

abbrev pub not_found : Error → Bool
not_found e = says e (text "not found")

unfoldable pub unless_gone : Option Error → Option Error
unless_gone none = none
unless_gone (some e) = if not_found e then none else some e

module _ {S : Type 0} (C : Clock S) (D : Containerd S) (K : Disk S) (namespace : Text) where
  open D use {
    Image, Container, Task, get_image, pull, unpack, new_container, load_container, delete,
    new_task, find_task, start, kill, delete_task, pid,
  }

  unfoldable pub container_spec : Plan → Image → ContainerSpec Image
  container_spec p img = record {
    id = p.id;
    image = img;
    snapshotter = snapshotter;
    snapshot = snapshot_of p.id;
    runtime = text "aws.firecracker";
    options = image_config ∷ (base_options p ++ requested_options p);
  }

  -- `GetImage`, and `Pull` if that fails.
  unfoldable pub fetch_image : Text → Call S Image
  fetch_image ref s =
      let (t, r) = get_image ref s in
      elim r [
        | ok img ↦ (t, ok img)
        | err e ↦
            let (u, q) = pull ref snapshotter t in
            elim q [ ok img ↦ (u, ok img) | err x ↦ (u, err (failed_with "pull image " ref x)) ]
      ]

  unfoldable pub running_state : Plan → Task → ContainerState
  running_state p task = record {
    id = p.id;
    name = p.name;
    phase = ContainerPhase.running;
    error = [];
    image = normalize_image p.image;
    args = p.args;
    env = p.env;
    snapshot_key = snapshot_of p.id;
    task_pid = pid task;
    runtime = text "aws.firecracker";
    task_status = text "running";
    exit_status = 0;
    exit_time = [];
  }

  -- How an attempt ended: with a task that runs, with an error, or with one that may pass.
  pub data Attempt : Type 0 where
    started : Task → Attempt
    failed transient : Error → Attempt

  abbrev pub weigh : Text → Error → Error → Attempt
  weigh id e told = if is_transient_runtime_err e then transient told else failed told

  -- A task of a new container. Without one the container is deleted.
  unfoldable pub start_container : Text → Container → S → S × Attempt
  start_container id ctr s =
      let (t, r) = new_task ctr s in
      elim r [
        | err e ↦ ((delete ctr false t).0, weigh id e (failed_with "new task " id e))
        | ok task ↦
            let (u, q) = start task t in
            elim q [
              | none ↦ (u, started task)
              | some e ↦ (
                (delete ctr false (delete_task task u).0).0,
                weigh id e (failed_with "start task " id e),
              )
            ]
      ]

  unfoldable pub attempt_container : Plan → Image → S → S × Attempt
  attempt_container p img s =
      let (t, r) = new_container (container_spec p img) (K.mkdir_all (task_dir namespace) s).0 in
      elim r [
        | err e ↦ (t, failed (failed_with "new container " p.id e))
        | ok ctr ↦ start_container p.id ctr t
      ]

  unfoldable pub start_attempts : ℕ → ℕ → Plan → Image → Call S ContainerState
  start_attempts zero attempt p img s =
      (s, err (message (text "start task \"" ++ (p.id ++ text "\": exceeded retry attempts"))))
  start_attempts (suc left) attempt p img s =
      let (t, r) = attempt_container p img s in
      elim r [
        | started task ↦ (t, ok (running_state p task))
        | failed e ↦ (t, err e)
        | transient e ↦
            start_attempts left (suc attempt) p img (C.sleep (milliseconds (120 * attempt)) t)
      ]

  unfoldable pub create_container : Plan → Call S ContainerState
  create_container p s =
      let (t, r) = fetch_image (normalize_image p.image) s in
      elim r [
        | err e ↦ (t, err e)
        | ok img ↦
            let (u, q) = unpack img snapshotter t in
            elim (unpack_error (normalize_image p.image) q) [
              | some e ↦ (u, err e)
              | none ↦ start_attempts 4 1 p img u
            ]
      ]

  -- `_, _ = task.Delete(...)` for the task of a container, if it has one.
  unfoldable pub delete_its_task : Result Task → S → S
  delete_its_task (err e) s = s
  delete_its_task (ok task) s = (delete_task task s).0

  unfoldable pub kill_its_task : Result Task → S → S
  kill_its_task (err e) s = s
  kill_its_task (ok task) s = (delete_task task (kill task s).0).0

  -- The snapshot cannot be cleaned up while a task runs: the task is killed and deleted first.
  unfoldable pub delete_after_kill : Container → Action S
  delete_after_kill ctr s =
      let (t, r) = delete ctr true (kill_its_task (find_task ctr s) s) in (t, unless_gone r)

  -- The container goes and its snapshot stays. `e` is the error of the attempt before.
  unfoldable pub delete_keeping_snapshot : Container → Error → Action S
  delete_keeping_snapshot ctr e s =
      let (t, r) = delete ctr false s in
      elim (unless_gone r) [ none ↦ (t, none) | some x ↦ (t, some e) ]

  unfoldable pub delete_again : Container → Option Error → Action S
  delete_again ctr none s = (s, none)
  delete_again ctr (some e) s =
      if says e (text "running task") || says e (text "failed precondition")
      then delete_after_kill ctr s
      else delete_keeping_snapshot ctr e s

  unfoldable pub delete_loaded : Container → Action S
  delete_loaded ctr s =
      let (t, r) = delete ctr true (delete_its_task (find_task ctr s) s) in
      delete_again ctr (unless_gone r) t

  unfoldable pub stop_and_delete_container : Text → Action S
  stop_and_delete_container id s = elim (load_container id s) [
    | err e ↦ (s, unless_gone (some e))
    | ok ctr ↦ delete_loaded ctr s
  ]
