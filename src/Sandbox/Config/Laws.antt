-- ===== src/Sandbox/Config/Laws.antt =====
-- The configuration after its defaults, and the lists of the environment.
use go_firecracker_container.Base.{◌≡◌, ◌≢◌, ◌≤◌, List, [], ◌∷◌, All, nat_eq, list_eq, arith}
use go_firecracker_container.Base.Text.{Text}
use go_firecracker_container.Base.Integer.{ℤ, pos, negsuc}
use go_firecracker_container.Sandbox.Config.{
  Config, with_config_defaults, csv_env, drop_empty, split_csv, split_comma, or_default,
  or_positive, default_config,
}

abbrev pub IsPositive : ℤ → Type 0
IsPositive (pos n) = 1 ≤ n
IsPositive (negsuc n) = ⊥

-- Every text is set, and every number is positive.
pub record IsComplete (cfg : Config) : Type 0 where
  pub containerd_address : cfg.containerd_address ≢ []
  pub namespace : cfg.namespace ≢ []
  pub state_base_dir : cfg.state_base_dir ≢ []
  pub lock_dir : cfg.lock_dir ≢ []
  pub bridge_interface : cfg.bridge_interface ≢ []
  pub subnet_cidr : cfg.subnet_cidr ≢ []
  pub reconcile_interval : IsPositive cfg.reconcile_interval
  pub reconcile_grace : IsPositive cfg.reconcile_grace
  pub reconcile_hits : IsPositive cfg.reconcile_hits

or_default-ne_nil : (s d : Text) → d ≢ [] → or_default s d ≢ []
or_default-ne_nil s d h = ground arith

or_positive-IsPositive : (z d : ℤ) → IsPositive d → IsPositive (or_positive z d)
or_positive-IsPositive z d h = ground arith

with_config_defaults-IsComplete : (cfg : Config) → IsComplete (with_config_defaults cfg)
unfolding with_config_defaults
with_config_defaults-IsComplete cfg = record {
  containerd_address =
      or_default-ne_nil cfg.containerd_address default_config.containerd_address (λ e. cc);
  namespace = or_default-ne_nil cfg.namespace default_config.namespace (λ e. cc);
  state_base_dir = or_default-ne_nil cfg.state_base_dir default_config.state_base_dir (λ e. cc);
  lock_dir = or_default-ne_nil cfg.lock_dir default_config.lock_dir (λ e. cc);
  bridge_interface =
      or_default-ne_nil cfg.bridge_interface default_config.bridge_interface (λ e. cc);
  subnet_cidr = or_default-ne_nil cfg.subnet_cidr default_config.subnet_cidr (λ e. cc);
  reconcile_interval =
      or_positive-IsPositive cfg.reconcile_interval default_config.reconcile_interval (omega arith);
  reconcile_grace =
      or_positive-IsPositive cfg.reconcile_grace default_config.reconcile_grace (omega arith);
  reconcile_hits =
      or_positive-IsPositive cfg.reconcile_hits default_config.reconcile_hits (omega arith);
}

or_default-set : (s d : Text) → s ≢ [] → or_default s d ≡ s
or_default-set s d h = ground arith

or_positive-set : (z d : ℤ) → IsPositive z → or_positive z d ≡ z
or_positive-set z d h = ground arith

pub with_config_defaults_complete : (cfg : Config) → IsComplete cfg → with_config_defaults cfg ≡ cfg
unfolding with_config_defaults
with_config_defaults_complete cfg c = λ i. record {
  containerd_address =
      or_default-set cfg.containerd_address default_config.containerd_address c.containerd_address
        i;
  namespace = or_default-set cfg.namespace default_config.namespace c.namespace i;
  state_base_dir =
      or_default-set cfg.state_base_dir default_config.state_base_dir c.state_base_dir i;
  lock_dir = or_default-set cfg.lock_dir default_config.lock_dir c.lock_dir i;
  bridge_interface =
      or_default-set cfg.bridge_interface default_config.bridge_interface c.bridge_interface i;
  subnet_cidr = or_default-set cfg.subnet_cidr default_config.subnet_cidr c.subnet_cidr i;
  reconcile_interval =
      or_positive-set cfg.reconcile_interval default_config.reconcile_interval c.reconcile_interval
        i;
  reconcile_grace =
      or_positive-set cfg.reconcile_grace default_config.reconcile_grace c.reconcile_grace i;
  reconcile_hits =
      or_positive-set cfg.reconcile_hits default_config.reconcile_hits c.reconcile_hits i;
}

-- After `withConfigDefaults` every text is set and every number is positive, and a second call
-- changes nothing.
pub with_config_defaults_lem :
    (cfg : Config)
    → IsComplete (with_config_defaults cfg)
      × (with_config_defaults (with_config_defaults cfg) ≡ with_config_defaults cfg)
with_config_defaults_lem cfg =
    let c = with_config_defaults-IsComplete cfg in (c, with_config_defaults_complete _ c)

drop_empty-set : (ps : List Text) → All (λ p. p ≢ []) (drop_empty ps)
unfolding drop_empty
drop_empty-set [] = tt
drop_empty-set (p ∷ ps) = ground (arith, drop_empty-set ps)

-- A list from the environment is not empty and has no empty item, if this holds of the default.
pub csv_env_lem :
    (raw : Text) (def : List Text)
    → def ≢ []
    → All (λ p. p ≢ []) def
    → (csv_env raw def ≢ []) × All (λ p. p ≢ []) (csv_env raw def)
unfolding csv_env
csv_env_lem raw def h k = ground (arith, drop_empty-set (split_csv (split_comma raw)))
