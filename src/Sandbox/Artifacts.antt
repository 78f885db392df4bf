-- ===== src/Sandbox/Artifacts.antt =====
-- What a sandbox leaves on its host, and its removal: the part of internal/sandbox/runtime.go from
-- `deleteSandboxFromState` to `cleanupSandboxNetworkPolicy`.
pub mod Laws
use go_firecracker_container.Base.{
  Bool, true, false, not, Option, none, some, List, [], ◌∷◌, ◌++◌, ◌==◌, nat_eq, list_eq,
  if◌then◌else◌,
}
use go_firecracker_container.Base.Text.{Text, text, has_prefix}
use go_firecracker_container.Base.Paths.{join_path}
use go_firecracker_container.Base.Dict
use go_firecracker_container.Base.Dict.{Dict}
use go_firecracker_container.Base.Sorting.{sort_strings}
use go_firecracker_container.Model.{Error, message, Result, ok, err, ContainerState, Sandbox}
use go_firecracker_container.Model.Actions.{Action, done, ignore, each, ◌>>◌}
use go_firecracker_container.Machine.{DirEntry, error_text}
use go_firecracker_container.Network.Firewall.{apply_sandbox_rules, delete_sandbox_rules}
use go_firecracker_container.Network.Dnat.{
  apply_host_port_dnat, delete_host_port_dnat, delete_host_port_dnat_by_sandbox,
}
use go_firecracker_container.Store
use go_firecracker_container.Sandbox.Config.{Config}
use go_firecracker_container.Sandbox.Runtime.{to_published_ports, to_host_port_forwards}
use go_firecracker_container.Sandbox.Vm.{stop_vm}
use go_firecracker_container.Sandbox.Containers.{task_dir, stop_and_delete_container}
use go_firecracker_container.Sandbox.World.{Host, World, on_machine, on_tables, on_files}

unfoldable pub sorted_container_names : Dict Text ContainerState → List Text
sorted_container_names m = sort_strings (Dict.keys m)

-- `m[name].ID`; a missing name reads as the zero value.
abbrev pub id_at : Option ContainerState → Text
id_at none = []
id_at (some st) = st.id

-- `append(errs, e)` if `e` is not nil, in front of those of the later containers.
abbrev pub add_error : Option Error → List Error → List Error
add_error none errs = errs
add_error (some e) errs = e ∷ errs

join_lines : Text → List Error → Text
join_lines m [] = m
join_lines m (e ∷ es) = m ++ b'\n' ∷ join_lines (error_text e) es

-- `errors.Join`
unfoldable pub join_errors : List Error → Option Error
unfolding join_lines
join_errors [] = none
join_errors (e ∷ es) = some (message (join_lines (error_text e) es))

abbrev pub cni_dir : Text → Text
cni_dir id = join_path (text "/var/lib/cni" ∷ id ∷ [])

abbrev pub shim_dir : Text → Text → Text
shim_dir namespace id =
    join_path (text "/var/lib/firecracker-containerd/shim-base" ∷ (namespace ++ b'#' ∷ id) ∷ [])

module _ (H : Host) where
  -- The loop over the containers, with the errors it collects.
  unfoldable pub delete_containers :
      Text → Dict Text ContainerState → List Text → H.Machine → H.Machine × List Error
  delete_containers namespace m [] s = (s, [])
  delete_containers namespace m (name ∷ names) s =
      let (t, e) =
        stop_and_delete_container H.clock H.containerd H.disk namespace (id_at (Dict.lookup name m))
          s in
      let rest : H.Machine × List Error = delete_containers namespace m names t in
      (rest.0, add_error e rest.1)

  unfoldable pub cleanup_host_port_publish : Sandbox → World H → World H
  cleanup_host_port_publish sbx w =
      (on_tables H
        ((if not (sbx.ip == [])
            then ignore
                (delete_host_port_dnat H.tables sbx.id sbx.ip (to_host_port_forwards sbx.ports))
            else done)
          >> delete_host_port_dnat_by_sandbox H.tables sbx.id)
        w).0

  unfoldable pub cleanup_sandbox_network_policy : Sandbox → World H → World H
  cleanup_sandbox_network_policy sbx w =
      if sbx.ip == []
      then w
      else (on_tables H
          (delete_sandbox_rules H.tables sbx.id sbx.ip sbx.bridge_name
            (to_published_ports sbx.ports))
          w).0

  -- The directories of tasks whose name starts with the id and a dash.
  unfoldable pub remove_tasks : Text → Text → Result (List DirEntry) → Action H.Machine
  remove_tasks base id (err e) s = (s, none)
  remove_tasks base id (ok entries) s =
      each
        (λ e.
          if has_prefix e.name (id ++ text "-")
          then ignore (H.disk.remove_all (join_path (base ∷ e.name ∷ [])))
          else done)
        entries s

  unfoldable pub cleanup_shim_artifacts : Text → Text → Action H.Machine
  cleanup_shim_artifacts namespace id = ignore (H.disk.remove_all (shim_dir namespace id)) >> λ s.
      remove_tasks (task_dir namespace) id (H.disk.read_dir (task_dir namespace) s) s

  unfoldable pub cleanup_cni_cache : Text → Action H.Machine
  cleanup_cni_cache id s =
      if id == [] then (s, none) else ((H.disk.remove_all (cni_dir id) s).0, none)

  -- `_ = s.cleanupShimArtifacts(…); _ = s.cleanupCNICache(…)`
  abbrev pub cleanup_caches : Text → Text → Action H.Machine
  cleanup_caches namespace id =
      ignore (cleanup_shim_artifacts namespace id) >> ignore (cleanup_cni_cache id)

  unfoldable pub delete_sandbox_runtime_artifacts : Sandbox → World H → World H × Option Error
  delete_sandbox_runtime_artifacts sbx w =
      let namespace = w.memory.cfg.namespace in
      let (v, errs) =
        on_machine H
          (delete_containers namespace sbx.containers (sorted_container_names sbx.containers)) w in
      let cleaned = cleanup_sandbox_network_policy sbx (cleanup_host_port_publish sbx v) in
      (
        (on_machine H (cleanup_caches namespace sbx.id >> ignore (stop_vm H.clock H.vms sbx.id))
            cleaned).0,
        join_errors errs,
      )

  -- `_ = s.store.Delete(sbx.ID)`
  unfoldable pub delete_sandbox_from_state : Sandbox → World H → World H × Option Error
  delete_sandbox_from_state sbx w =
      let (v, e) = delete_sandbox_runtime_artifacts sbx w in
      ((on_files H (Store.delete H.files H.codec w.memory.cfg.state_base_dir sbx.id) v).0, e)

  unfoldable pub apply_sandbox_network_policy : Sandbox → World H → World H × Option Error
  apply_sandbox_network_policy sbx w =
      on_tables H
        (apply_sandbox_rules H.tables H.nameservers sbx.id sbx.ip w.memory.cfg.subnet_cidr
          w.memory.cfg.bridge_interface sbx.egress (to_published_ports sbx.ports))
        w

  unfoldable pub apply_host_port_publish : Sandbox → World H → World H × Option Error
  apply_host_port_publish sbx w =
      on_tables H (apply_host_port_dnat H.tables sbx.id sbx.ip (to_host_port_forwards sbx.ports)) w
