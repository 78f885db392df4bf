-- ===== src/Startup/Laws.antt =====
-- The configuration of a program that starts.
use go_firecracker_container.Base.{◌≡◌, ◌≢◌, [], nat_eq, list_eq, arith}
use Prim.Native.String.{String}
use go_firecracker_container.Base.Text.{Text}
use go_firecracker_container.Sandbox.Config.{default_config, with_config_defaults}
use go_firecracker_container.Sandbox.Config.Laws.{IsComplete, with_config_defaults_complete}
use go_firecracker_container.Startup.{Environment, env_or, default_config_of, config_of}

env_or-given : (env : Environment) (name : String) (d : Text) → d ≢ [] → env_or env name d ≢ []
unfolding env_or
env_or-given env name d h = ground (arith, h)

config_of-IsComplete : (env : Environment) → IsComplete (config_of env)
unfolding config_of default_config_of
config_of-IsComplete env = record {
  containerd_address =
      env_or-given env "SANDBOX_CONTAINERD_ADDRESS" default_config.containerd_address (λ e. cc);
  namespace = env_or-given env "SANDBOX_NAMESPACE" default_config.namespace (λ e. cc);
  state_base_dir =
      env_or-given env "SANDBOX_STATE_BASE_DIR" default_config.state_base_dir (λ e. cc);
  lock_dir = env_or-given env "SANDBOX_LOCK_DIR" default_config.lock_dir (λ e. cc);
  bridge_interface =
      env_or-given env "SANDBOX_BRIDGE_INTERFACE" default_config.bridge_interface (λ e. cc);
  subnet_cidr = env_or-given env "SANDBOX_SUBNET_CIDR" default_config.subnet_cidr (λ e. cc);
  reconcile_interval = omega arith;
  reconcile_grace = omega arith;
  reconcile_hits = omega arith;
}

-- The configuration that `main` reads from the environment needs no defaults.
pub config_of-with_config_defaults :
    (env : Environment) → with_config_defaults (config_of env) ≡ config_of env
config_of-with_config_defaults env =
    with_config_defaults_complete (config_of env) (config_of-IsComplete env)
