-- ===== src/Startup.antt =====
-- The start of the program: `main` of cmd/server/main.go as far as the configuration, and `New` and
-- `DefaultConfig` of internal/sandbox/service.go. The variables of the environment are a function.
pub mod Laws
use go_firecracker_container.Base.{
  Bool, Option, none, some, List, [], ◌∷◌, ◌==◌, nat_eq, list_eq, if◌then◌else◌,
}
use Prim.Native.String.{String}
use go_firecracker_container.Base.Text.{Text, text}
use go_firecracker_container.Model.{Error, Result, ok, err}
use go_firecracker_container.Model.Actions.{Action, ◌>>◌}
use go_firecracker_container.Network.Firewall.{ensure_global_chains}
use go_firecracker_container.Network.BridgeNetfilter.{ensure_bridge_netfilter}
use go_firecracker_container.Store.{new_file_store}
use go_firecracker_container.Sandbox.Config.{
  Config, Service, default_config, with_config_defaults, csv_env,
}
use go_firecracker_container.Sandbox.World.{Host, World, on_machine, on_tables, on_files}

-- `os.Getenv`: "" for a variable that is not set.
abbrev pub Environment : Type 0
Environment = Text → Text

-- `if v := os.Getenv(name); v != "" { field = v }`
unfoldable pub env_or : Environment → String → Text → Text
env_or env name field = if env (text name) == [] then field else env (text name)

unfoldable pub default_config_of : Environment → Config
default_config_of env = record default_config {
  containerd_address = env_or env "SANDBOX_CONTAINERD_ADDRESS" default_config.containerd_address;
}

unfoldable pub config_of : Environment → Config
config_of env =
    let cfg = default_config_of env in
    record cfg {
      namespace = env_or env "SANDBOX_NAMESPACE" cfg.namespace;
      state_base_dir = env_or env "SANDBOX_STATE_BASE_DIR" cfg.state_base_dir;
      lock_dir = env_or env "SANDBOX_LOCK_DIR" cfg.lock_dir;
      bridge_interface = env_or env "SANDBOX_BRIDGE_INTERFACE" cfg.bridge_interface;
      subnet_cidr = env_or env "SANDBOX_SUBNET_CIDR" cfg.subnet_cidr;
    }

unfoldable pub http_addr : Environment → Text
http_addr env = env_or env "HTTP_ADDR" (text ":8080")

unfoldable pub hook_chains : Environment → List Text
hook_chains env =
    csv_env (env (text "SANDBOX_FORWARD_HOOK_CHAINS")) (text "FORWARD" ∷ text "DOCKER-USER" ∷ [])

-- A service that has just been made.
unfoldable pub fresh_service : Config → Service
fresh_service cfg = record {
  reserved_ports = [];
  unhealthy_since = [];
  unhealthy_hits = [];
  cfg = cfg;
}

-- `New`, once there are the clients of containerd and of iptables: `modprobe` is the command that it
-- may run. The memory of the world is set by the caller.
module _ (H : Host) (modprobe : Action H.Machine) where
  unfoldable pub prepare_host : Environment → Action (World H)
  prepare_host env = do
    on_machine H (ensure_bridge_netfilter H.disk modprobe)
    λ w. on_files H (new_file_store H.files H.codec w.memory.cfg.state_base_dir) w
    on_tables H (ensure_global_chains H.tables (hook_chains env))
    λ w. on_machine H (H.disk.mkdir_all w.memory.cfg.lock_dir) w

  unfoldable pub new_service : Environment → Config → Action (World H)
  new_service env cfg w =
      prepare_host env (record w { memory = fresh_service (with_config_defaults cfg) })
