-- ===== src/Sandbox/Reconcile.antt =====
-- internal/sandbox/reconcile.go: the stored sandboxes and those of the host are compared, and what
-- does not belong goes. The ticker of `StartReconcileLoop` repeats `reconcile_once`.
pub mod Laws
pub mod Ids
use go_firecracker_container.Base.{
  ℕ, ◌+◌, ◌*◌, Bool, true, false, not, ◌&&◌, ◌||◌, Option, none, some, List, [], ◌∷◌, ◌++◌,
  contains, ltb, is_empty, ◌==◌, nat_eq, list_eq, if◌then◌else◌,
}
use mathlib.Core.List.{reverse}
use go_firecracker_container.Base.Text.{Text, text, has_prefix, trim_prefix}
use go_firecracker_container.Base.Paths.{join_path}
use go_firecracker_container.Base.Sorting.{sort_strings}
use go_firecracker_container.Model.{Error, message, Result, ok, err, SandboxPhase, Sandbox}
use go_firecracker_container.Machine.{DirEntry}
use go_firecracker_container.Network.Dnat.{delete_orphan_host_port_dnat}
use go_firecracker_container.Store
use go_firecracker_container.Sandbox.Config.{seconds}
use go_firecracker_container.Sandbox.Phase.{set_sandbox_phase, is_creating, is_deleting}
use go_firecracker_container.Sandbox.Health.{should_finalize_unhealthy, clear_unhealthy}
use go_firecracker_container.Sandbox.Waits.{all_containers_run}
use go_firecracker_container.Sandbox.Locks.{is_sandbox_lock_held}
use go_firecracker_container.Sandbox.World.{Host, World, on_machine, on_tables, on_memory}
use go_firecracker_container.Sandbox.Artifacts.{delete_sandbox_from_state}
use go_firecracker_container.Sandbox.Orphans.{cleanup_orphan_runtime_sandbox}
use go_firecracker_container.Sandbox.Provision.{load, save, now, base_dir}

-- `strings.TrimSuffix`, and whether there is the suffix.
unfoldable pub has_suffix : Text → Text → Bool
has_suffix s p = has_prefix (reverse s) (reverse p)

unfoldable pub trim_suffix : Text → Text → Text
trim_suffix s p = reverse (trim_prefix (reverse s) (reverse p))

-- The group of the regular expression "^fcnet-(.+)-veth0$"; `.` is no newline.
unfoldable pub fcnet_id : Text → Option Text
fcnet_id name =
    let rest = trim_prefix name (text "fcnet-") in
    let id = trim_suffix rest (text "-veth0") in
    if has_prefix name (text "fcnet-") && has_suffix rest (text "-veth0")
    then if id == [] || contains id b'\n' then none else some id
    else none

-- The set of the ids, as a list without repetitions.
abbrev pub add_id : Option Text → List Text → List Text
add_id none ids = ids
add_id (some id) ids = if contains ids id then ids else id ∷ ids

unfoldable pub add_results : List DirEntry → List Text → List Text
add_results [] ids = ids
add_results (f ∷ files) ids = add_results files (add_id (fcnet_id f.name) ids)

-- A directory whose results cannot be read is passed over.
unfoldable pub add_directory : Result (List DirEntry) → List Text → List Text
add_directory (err e) ids = ids
add_directory (ok files) ids = add_results files ids

-- `time.Since(sbx.CreatedAt) < 2*time.Minute`
unfoldable pub is_provisioning : ℕ → Sandbox → Bool
is_provisioning now sbx = is_creating sbx.phase && ltb now (sbx.created_at + seconds 120)

unfoldable pub ids_of : List Sandbox → List Text
ids_of [] = []
ids_of (sbx ∷ all) = sbx.id ∷ ids_of all

module _ (H : Host) where
  unfoldable pub add_directories : List DirEntry → H.Machine → List Text → List Text
  add_directories [] s ids = ids
  add_directories (d ∷ entries) s ids = add_directories entries s (
      if d.is_dir
      then add_directory
          (H.disk.read_dir (join_path (text "/var/lib/cni" ∷ d.name ∷ text "results" ∷ [])) s) ids
      else ids)

  unfoldable pub list_runtime_sandbox_ids : H.Machine → Result (List Text)
  list_runtime_sandbox_ids s = elim (H.disk.read_dir (text "/var/lib/cni") s) [
    | err e ↦ err e
    | ok entries ↦ ok (sort_strings (add_directories entries s []))
  ]

  abbrev pub is_locked : Text → World H → World H × Bool
  is_locked id = λ w. on_machine H (is_sandbox_lock_held H.clock H.locks w.memory.cfg.lock_dir id) w

  unfoldable pub is_healthy : Sandbox → World H → Bool
  is_healthy sbx w = all_containers_run H.clock H.containerd sbx.containers w.machine

  -- An unhealthy sandbox is deleted when it has been so for long enough.
  unfoldable pub finalize_if_due : Sandbox → World H → World H
  finalize_if_due sbx w =
      let (memory, due) = should_finalize_unhealthy (now H w) sbx.id w.memory in
      let seen = record w { memory = memory } in
      if due
      then on_memory H (clear_unhealthy sbx.id) (delete_sandbox_from_state H sbx seen).0
      else seen

  unfoldable pub time_out : Sandbox → World H → World H
  time_out sbx w =
      (save H (set_sandbox_phase (now H w) SandboxPhase.error (text "provisioning timeout") sbx)
        w).0

  -- The body of the loop over the stored sandboxes, if the lock is not held.
  unfoldable pub reconcile_unlocked : List Text → Sandbox → World H → World H
  reconcile_unlocked runtime_ids sbx w =
      if is_deleting sbx.phase
      then w
      else if is_provisioning (now H w) sbx
      then w
      else if is_creating sbx.phase
      then time_out sbx w
      else if not (contains runtime_ids sbx.id)
      then finalize_if_due sbx w
      else if not (is_healthy sbx w)
      then finalize_if_due sbx w
      else on_memory H (clear_unhealthy sbx.id) w

  unfoldable pub reconcile_stored : List Text → Sandbox → World H → World H
  reconcile_stored runtime_ids sbx w =
      let (v, held) = is_locked sbx.id w in if held then v else reconcile_unlocked runtime_ids sbx v

  unfoldable pub reconcile_all : List Text → List Sandbox → World H → World H
  reconcile_all runtime_ids [] w = w
  reconcile_all runtime_ids (sbx ∷ all) w =
      reconcile_all runtime_ids all (reconcile_stored runtime_ids sbx w)

  unfoldable pub reconcile_runtime : List Text → Text → World H → World H
  reconcile_runtime stored id w =
      if contains stored id
      then w
      else let (v, held) = is_locked id w in
        if held then v else (cleanup_orphan_runtime_sandbox H id v).0

  unfoldable pub reconcile_runtimes : List Text → List Text → World H → World H
  reconcile_runtimes stored [] w = w
  reconcile_runtimes stored (id ∷ ids) w =
      reconcile_runtimes stored ids (reconcile_runtime stored id w)

  unfoldable pub reconcile_with : List Sandbox → List Text → World H → World H
  reconcile_with all runtime_ids w =
      let v = reconcile_runtimes (ids_of all) runtime_ids (reconcile_all runtime_ids all w) in
      (on_tables H (delete_orphan_host_port_dnat H.tables (ids_of all ++ runtime_ids)) v).0

  unfoldable pub reconcile_once : World H → World H × Option Error
  reconcile_once w = elim (Store.list H.files H.codec (base_dir H w) w.files) [
    | err e ↦ (w, some e)
    | ok all ↦ elim (list_runtime_sandbox_ids w.machine) [
      | err e ↦ (w, some e)
      | ok runtime_ids ↦ (reconcile_with all runtime_ids w, none)
    ]
  ]

  unfoldable pub is_sandbox_healthy : Text → World H → Result Bool
  is_sandbox_healthy id w = elim (load H id w) [ err e ↦ err e | ok sbx ↦ ok (is_healthy sbx w) ]

  unfoldable pub cleanup_sandbox_resources : Text → World H → World H × Option Error
  cleanup_sandbox_resources id w = elim (load H id w) [
    | ok sbx ↦ delete_sandbox_from_state H sbx w
    | err (message m) ↦ (w, some (message m))
    | err Error.not_exist ↦ cleanup_orphan_runtime_sandbox H id w
  ]
