-- ===== src/Sandbox/Orphans.antt =====
-- A sandbox that is on the host and not in the store: `cleanupOrphanRuntimeSandbox` and
-- `sandboxIPFromCNICache` of internal/sandbox/reconcile.go, `hasRuntimeArtifacts` of
-- internal/sandbox/lifecycle.go.
use go_firecracker_container.Base.{
  Bool, true, false, ◌&&◌, Option, none, some, List, [], ◌∷◌, ◌++◌, any, is_empty, ◌==◌, nat_eq,
  list_eq, if◌then◌else◌,
}
use go_firecracker_container.Base.Text.{Text, text, has_prefix}
use go_firecracker_container.Base.Dict
use go_firecracker_container.Base.Dict.{Dict}
use go_firecracker_container.Model.{
  Error, Result, ok, err, SandboxPhase, ContainerPhase, ContainerState, Sandbox,
}
use go_firecracker_container.Network.Cni.{lookup_fcnet_ipv4}
use go_firecracker_container.Sandbox.Config.{Config}
use go_firecracker_container.Sandbox.World.{Host, World}
use go_firecracker_container.Sandbox.Artifacts.{
  cni_dir, shim_dir, cleanup_host_port_publish, delete_sandbox_from_state,
}

-- `model.ContainerState{ID: id}`
abbrev pub bare_container : Text → ContainerState
bare_container id = record {
  id = id;
  name = [];
  phase = ContainerPhase.unset;
  error = [];
  image = [];
  args = [];
  env = [];
  snapshot_key = [];
  task_pid = 0;
  runtime = [];
  task_status = [];
  exit_status = 0;
  exit_time = [];
}

-- The containers whose id starts with that of the sandbox and a dash.
unfoldable pub containers_of :
    Text → List Text → Dict Text ContainerState → Dict Text ContainerState
containers_of id [] m = m
containers_of id (c ∷ cs) m =
    containers_of id cs
      (if has_prefix c (id ++ text "-") then Dict.insert c (bare_container c) m else m)

unfoldable pub orphan_sandbox : Config → Text → Text → List Text → Sandbox
orphan_sandbox cfg id ip cs = record {
  id = id;
  phase = SandboxPhase.unset;
  error = [];
  namespace = cfg.namespace;
  ip = ip;
  subnet_cidr = [];
  bridge_name = cfg.bridge_interface;
  egress = false;
  ports = [];
  containers = containers_of id cs [];
  cni_conf_path = [];
  created_at = 0;
  updated_at = 0;
}

unfoldable pub ip_or_empty : Result Text → Text
ip_or_empty (ok ip) = ip
ip_or_empty (err e) = []

module _ (H : Host) where
  unfoldable pub sandbox_ip_from_cni_cache : Text → H.Machine → Text
  sandbox_ip_from_cni_cache id s =
      ip_or_empty (lookup_fcnet_ipv4 H.cache (λ path. H.disk.read_file path s) id)

  unfoldable pub cleanup_orphan : Sandbox → World H → World H × Option Error
  cleanup_orphan tmp w =
      if is_empty tmp.containers && tmp.ip == []
      then (cleanup_host_port_publish H tmp w, none)
      else delete_sandbox_from_state H tmp w

  unfoldable pub cleanup_orphan_runtime_sandbox : Text → World H → World H × Option Error
  cleanup_orphan_runtime_sandbox id w = elim (H.containerd.containers w.machine) [
    | err e ↦ (w, some e)
    | ok cs ↦
        cleanup_orphan (orphan_sandbox w.memory.cfg id (sandbox_ip_from_cni_cache id w.machine) cs)
          w
  ]

  unfoldable pub has_container_of : Text → Result (List Text) → Bool
  has_container_of id (err e) = false
  has_container_of id (ok cs) = any (λ c. has_prefix c (id ++ text "-")) cs

  unfoldable pub has_runtime_artifacts : Text → Text → H.Machine → Bool
  has_runtime_artifacts namespace id s =
      if id == [] then false else elim (H.disk.stat (cni_dir id) s) [
        | none ↦ true
        | some e ↦ elim (H.disk.stat (shim_dir namespace id) s) [
          | none ↦ true
          | some e ↦ has_container_of id (H.containerd.containers s)
        ]
      ]
