-- ===== src/Model/Validate/Tests.antt =====
-- Requests that are accepted and refused.
use go_firecracker_container.Base.{
  ◌≡◌, refl, ◌↔◌, true, none, some, [], ◌∷◌, ℕ_discrete, list_eq, contains,
}
use go_firecracker_container.Base.Text.{text, to_lower, trim_space}
use go_firecracker_container.Base.Integer.{pos, negsuc, int_eq}
use go_firecracker_container.Base.Decimal.{format_int}
use go_firecracker_container.Model.{
  ResourceLimits, CreateContainerRequest, CreateSandboxRequest, message,
}
use go_firecracker_container.Model.Validate.{validate}
use go_firecracker_container.Model.Validate.Laws.{IsValid, validate_iff}

abbrev no_limits : ResourceLimits
no_limits = record { memory_bytes = pos 0; cpu_quota = pos 0; cpu_period = 0; pids_limit = pos 0 }

abbrev web : CreateContainerRequest
web = record {
  name = text "web";
  image = text "python:3.12";
  args = [];
  env = [];
  work_dir = [];
  limits = no_limits;
}

abbrev worker : CreateContainerRequest
worker = record web { name = text "worker" }

abbrev demo : CreateSandboxRequest
demo = record {
  id = text "demo";
  egress = true;
  containers = web ∷ worker ∷ [];
  ports = record { host_port = pos 30080; container_port = pos 8080; protocol = text " TCP" } ∷ [];
}

runs_validate :
    (validate demo ≡ none)
    × (validate (record demo { containers = web ∷ [] })
        ≡ some (message (text "at least two containers are required")))
    × (validate (record demo { containers = web ∷ web ∷ [] })
        ≡ some (message (text "duplicate container name: web")))
    × (validate (record demo {
      ports = record { host_port = negsuc 4; container_port = pos 80; protocol = [] } ∷ [];
    })
        ≡ some (message (text "invalid port mapping: -5:80")))
unfolding validate contains list_eq ℕ_discrete trim_space to_lower int_eq format_int
runs_validate = (refl, refl, refl, refl)

validate_iff_example : (validate demo ≡ none) ↔ IsValid demo
validate_iff_example = validate_iff demo
