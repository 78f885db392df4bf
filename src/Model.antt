-- ===== src/Model.antt =====
-- internal/model/types.go: the state of a sandbox, and the request that creates one. The phases
-- are the constants of internal/sandbox/state.go; `unset` is the zero value "". Times are
-- nanoseconds since an origin. Maps are association lists.
pub mod Actions
pub mod Validate
use go_firecracker_container.Base.{ℕ, Bool, Option, List, ◌≡◌, refl, ◌⊎◌, inl, inr}
use go_firecracker_container.Base.Text.{Text}
use go_firecracker_container.Base.Integer.{ℤ}
use go_firecracker_container.Base.Dict.{Dict}

pub data SandboxPhase : Type 0 where
  unset creating running deleting error : SandboxPhase

pub data ContainerPhase : Type 0 where
  unset creating running stopped error unknown : ContainerPhase

pub record PortMapping : Type 0 where
  pub host_port : ℤ
  pub container_port : ℤ
  pub protocol : Text

pub record ContainerState : Type 0 where
  pub id : Text
  pub name : Text
  pub phase : ContainerPhase
  pub error : Text
  pub image : Text
  pub args : List Text
  pub env : List Text
  pub snapshot_key : Text
  pub task_pid : ℕ
  pub runtime : Text
  pub task_status : Text
  pub exit_status : ℕ
  pub exit_time : Text

pub record Sandbox : Type 0 where
  pub id : Text
  pub phase : SandboxPhase
  pub error : Text
  pub namespace : Text
  pub ip : Text
  pub subnet_cidr : Text
  pub bridge_name : Text
  pub egress : Bool
  pub ports : List PortMapping
  pub containers : Dict Text ContainerState
  pub cni_conf_path : Text
  pub created_at : ℕ
  pub updated_at : ℕ

pub record ResourceLimits : Type 0 where
  pub memory_bytes : ℤ
  pub cpu_quota : ℤ
  pub cpu_period : ℕ
  pub pids_limit : ℤ

pub record CreateContainerRequest : Type 0 where
  pub name : Text
  pub image : Text
  pub args : List Text
  pub env : List Text
  pub work_dir : Text
  pub limits : ResourceLimits

pub record CreateSandboxRequest : Type 0 where
  pub id : Text
  pub egress : Bool
  pub containers : List CreateContainerRequest
  pub ports : List PortMapping

-- Go's `error`: `os.ErrNotExist`, or an error with a message. `nil` is `none` of `Option Error`.
pub data Error : Type 0 where
  not_exist : Error
  message : Text → Error

-- `(T, error)` of a call that returns one of the two.
pub data Result {ℓ} (A : Type ℓ) : Type ℓ where
  ok : A → Result A
  err : Error → Result A

-- To split on a computed result and keep the equation.
pub Result-cases {ℓ} :
    {A : Type ℓ} (r : Result A) → ((a : A) × (r ≡ ok a)) ⊎ ((e : Error) × (r ≡ err e))
Result-cases (ok a) = inl (a, refl)
Result-cases (err e) = inr (e, refl)
