-- ===== src/Sandbox/Runtime/Tests.antt =====
-- Limits and images of requests.
use go_firecracker_container.Base.{◌≡◌, refl, nat_eq, list_eq, ℕ_discrete}
use go_firecracker_container.Base.Text.{text, contains_text}
use go_firecracker_container.Base.Integer.{pos, int_eq}
use go_firecracker_container.Model.{ResourceLimits}
use go_firecracker_container.Sandbox.Runtime.{with_default_limits, normalize_image}

abbrev small : ResourceLimits
small = record { memory_bytes = pos 0; cpu_quota = pos 20000; cpu_period = 0; pids_limit = pos 0 }

runs_requests :
    (normalize_image (text "python:3.12") ≡ text "docker.io/library/python:3.12")
    × (normalize_image (text "ghcr.io/a/b:1") ≡ text "ghcr.io/a/b:1")
    × (with_default_limits small ≡ record {
      memory_bytes = pos 134217728;
      cpu_quota = pos 20000;
      cpu_period = 100000;
      pids_limit = pos 128;
    })
unfolding normalize_image with_default_limits contains_text ℕ_discrete int_eq
runs_requests = (refl, refl, refl)
