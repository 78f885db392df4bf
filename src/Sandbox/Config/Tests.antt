-- ===== src/Sandbox/Config/Tests.antt =====
-- A configuration with gaps, and a list of the environment.
use go_firecracker_container.Base.{◌≡◌, refl, [], ◌∷◌, nat_eq, list_eq, ℕ_discrete}
use go_firecracker_container.Base.Text.{text, to_upper, trim_space}
use go_firecracker_container.Base.Integer.{pos, negsuc}
use go_firecracker_container.Sandbox.Config.{
  Config, default_config, with_config_defaults, csv_env, split_csv, split_comma, drop_empty,
}

abbrev partial : Config
partial = record {
  containerd_address = [];
  namespace = text "lab";
  state_base_dir = [];
  lock_dir = [];
  bridge_interface = [];
  subnet_cidr = [];
  reconcile_interval = negsuc 0;
  reconcile_grace = pos 0;
  reconcile_hits = pos 3;
}

runs_config :
    (with_config_defaults partial
      ≡ record default_config { namespace = text "lab"; reconcile_hits = pos 3 })
    × (csv_env (text "forward, ,cni-forward") (text "FORWARD" ∷ [])
        ≡ text "FORWARD" ∷ text "CNI-FORWARD" ∷ [])
    × (csv_env (text " ,") (text "FORWARD" ∷ []) ≡ text "FORWARD" ∷ [])
unfolding with_config_defaults csv_env split_csv split_comma drop_empty list_eq ℕ_discrete to_upper
    trim_space
runs_config = (refl, refl, refl)
