-- ===== src/Sandbox/Runtime/Laws.antt =====
-- The defaults that containers get.
use go_firecracker_container.Base.{
  ◌≡◌, refl, ◌≢◌, true, ◌++◌, ◌*◌, ◌==◌, nat_eq, list_eq, if◌then◌else◌, arith, Bool-cases, Eq,
  eq_of_==, inl, inr,
}
use go_firecracker_container.Base.Text.{Text, text, contains_text}
use go_firecracker_container.Base.Text.Laws.{contains_text-append}
use go_firecracker_container.Base.Integer.{pos, int_eq}
use go_firecracker_container.Model.{ResourceLimits}
use go_firecracker_container.Sandbox.Runtime.{with_default_limits, normalize_image}

-- No limit is left at 0.
pub record AreSet (limits : ResourceLimits) : Type 0 where
  pub memory_set : limits.memory_bytes ≢ pos 0
  pub quota_set : limits.cpu_quota ≢ pos 0
  pub period_set : limits.cpu_period ≢ 0
  pub pids_set : limits.pids_limit ≢ pos 0

with_default_limits-AreSet : (limits : ResourceLimits) → AreSet (with_default_limits limits)
unfolding with_default_limits
with_default_limits-AreSet limits = record {
  memory_set = ground arith;
  quota_set = ground arith;
  period_set = ground arith;
  pids_set = ground arith;
}

default_unused {ℓ} :
    {A : Type ℓ} ⦃e : Eq A⦄ (x zero default : A) → x ≢ zero → (if x == zero then default else x) ≡ x
default_unused x zero default h = elim (Bool-cases (x == zero)) [
  | inl e ↦ absurd (h (eq_of_== x zero e))
  | inr e ↦ rw e refl
]

with_default_limits-set :
    (limits : ResourceLimits) → AreSet limits → with_default_limits limits ≡ limits
unfolding with_default_limits
with_default_limits-set limits h = λ i. record {
  memory_bytes =
      default_unused limits.memory_bytes (pos 0) (pos (128 * 1024 * 1024)) h.memory_set i;
  cpu_quota = default_unused limits.cpu_quota (pos 0) (pos 50000) h.quota_set i;
  cpu_period = default_unused limits.cpu_period 0 100000 h.period_set i;
  pids_limit = default_unused limits.pids_limit (pos 0) (pos 128) h.pids_set i;
}

-- The limits of a container never hold a 0, and to apply the defaults again changes nothing.
pub with_default_limits_lem :
    (limits : ResourceLimits)
    → AreSet (with_default_limits limits)
      × (with_default_limits (with_default_limits limits) ≡ with_default_limits limits)
with_default_limits_lem limits = (
  with_default_limits-AreSet limits,
  with_default_limits-set _ (with_default_limits-AreSet limits),
)

hub_image-slash :
    (image : Text) → contains_text (text "docker.io/library/" ++ image) (text "/") ≡ true
hub_image-slash image = contains_text-append (text "docker.io/library") (text "/") image

-- A normalised image names its registry or path: it holds a slash, and to normalise it again
-- changes nothing.
pub normalize_image_lem :
    (image : Text)
    → (contains_text (normalize_image image) (text "/") ≡ true)
      × (normalize_image (normalize_image image) ≡ normalize_image image)
unfolding normalize_image
normalize_image_lem image = elim (Bool-cases (contains_text image (text "/"))) [
  | inl e ↦ ground (arith, e)
  | inr e ↦ rw (e, hub_image-slash image) (refl, refl)
]
