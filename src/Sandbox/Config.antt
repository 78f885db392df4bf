-- ===== src/Sandbox/Config.antt =====
-- internal/sandbox/service.go: the configuration and the state of the service. Durations are
-- nanoseconds. The clients of containerd and of iptables, and the store, are parameters elsewhere.
pub mod Laws
mod Tests
use go_firecracker_container.Base.{
  ℕ, ◌+◌, ◌*◌, ◌^◌, Bool, not, Option, none, some, List, [], ◌∷◌, ◌++◌, ◌==◌, nat_eq, list_eq,
  if◌then◌else◌,
}
use go_firecracker_container.Base.Text.{Text, text, to_upper, trim_space}
use go_firecracker_container.Base.Integer.{ℤ, pos, is_below, is_above}
use go_firecracker_container.Base.Dict.{Dict}
use go_firecracker_container.Sandbox.Ports.{Reserved}

abbrev pub seconds : ℕ → ℕ
seconds n = n * 1000000000

pub record Config : Type 0 where
  pub containerd_address : Text
  pub namespace : Text
  pub state_base_dir : Text
  pub lock_dir : Text
  pub bridge_interface : Text
  pub subnet_cidr : Text
  pub reconcile_interval : ℤ
  pub reconcile_grace : ℤ
  pub reconcile_hits : ℤ

abbrev pub default_config : Config
default_config = record {
  containerd_address = text "/run/firecracker-containerd/containerd.sock";
  namespace = text "sandbox-demo";
  state_base_dir = text "/var/lib/sandboxd/sandboxes";
  lock_dir = text "/var/lib/sandboxd/locks";
  bridge_interface = text "fc-br0";
  subnet_cidr = text "10.89.0.0/16";
  reconcile_interval = pos (seconds 15);
  reconcile_grace = pos (seconds 5);
  reconcile_hits = pos 2;
}

abbrev pub ready_timeout : ℕ
ready_timeout = seconds 20

abbrev pub cni_conf_path : Text
cni_conf_path = text "/etc/cni/net.d/20-fcnet.conflist"

abbrev or_default : Text → Text → Text
or_default s d = if s == [] then d else s

-- `d <= 0`, and `n < 1`
abbrev or_positive : ℤ → ℤ → ℤ
or_positive z d = if is_below z 1 then d else z

unfoldable pub with_config_defaults : Config → Config
with_config_defaults cfg = record {
  containerd_address = or_default cfg.containerd_address default_config.containerd_address;
  namespace = or_default cfg.namespace default_config.namespace;
  state_base_dir = or_default cfg.state_base_dir default_config.state_base_dir;
  lock_dir = or_default cfg.lock_dir default_config.lock_dir;
  bridge_interface = or_default cfg.bridge_interface default_config.bridge_interface;
  subnet_cidr = or_default cfg.subnet_cidr default_config.subnet_cidr;
  reconcile_interval = or_positive cfg.reconcile_interval default_config.reconcile_interval;
  reconcile_grace = or_positive cfg.reconcile_grace default_config.reconcile_grace;
  reconcile_hits = or_positive cfg.reconcile_hits default_config.reconcile_hits;
}

-- What the service keeps in memory between calls.
pub record Service : Type 0 where
  pub reserved_ports : Reserved
  pub unhealthy_since : Dict Text ℕ
  pub unhealthy_hits : Dict Text ℕ
  pub cfg : Config

-- `strings.Split(raw, ",")`
unfoldable pub split_comma : Text → List Text
split_comma [] = [] ∷ []
split_comma (b ∷ s) = elim (split_comma s) [
  | [] ↦ [] ∷ []
  | p ∷ ps ↦ if b == b',' then [] ∷ p ∷ ps else (b ∷ p) ∷ ps
]

unfoldable pub split_csv : List Text → List Text
split_csv [] = []
split_csv (p ∷ ps) = to_upper (trim_space p) ∷ split_csv ps

unfoldable pub drop_empty : List Text → List Text
drop_empty [] = []
drop_empty (p ∷ ps) = let rest = drop_empty ps in if not (p == []) then p ∷ rest else rest

-- `raw` is the value of the variable, "" if it is not set.
unfoldable pub csv_env : Text → List Text → List Text
csv_env raw def =
    let out = drop_empty (split_csv (split_comma raw)) in
    if raw == [] then def else if out == [] then def else out
