-- ===== src/Sandbox/Health/Tests.antt =====
-- A sandbox that is seen unhealthy three times.
use go_firecracker_container.Base.{
  ◌≡◌, refl, ◌+◌, true, false, not, ◌&&◌, [], ◌∷◌, length, ℕ_discrete, list_eq,
}
use go_firecracker_container.Base.Text.{text}
use go_firecracker_container.Base.Dict
use go_firecracker_container.Base.Integer.{is_above}
use go_firecracker_container.Sandbox.Config.{Service, default_config, seconds}
use go_firecracker_container.Sandbox.Health.{is_within_grace, should_finalize_unhealthy}
use go_firecracker_container.Sandbox.Health.Trace.{sightings, should_finalize_unhealthy_run}

abbrev idle : Service
idle = record {
  reserved_ports = [];
  unhealthy_since = [];
  unhealthy_hits = [];
  cfg = default_config;
}

-- The second sighting after 15 seconds is the last one; one after 3 seconds is not.
runs_unhealthy :
    ((should_finalize_unhealthy
        (seconds 15)
        (text "demo")
        (sightings (text "demo") (0 ∷ []) idle)).1
      ≡ true)
    × ((should_finalize_unhealthy
          (seconds 3)
          (text "demo")
          (sightings (text "demo") (0 ∷ []) idle)).1
        ≡ false)
unfolding should_finalize_unhealthy Dict.lookup Dict.insert ℕ_discrete list_eq
runs_unhealthy = (refl, refl)

should_finalize_unhealthy_run_example :
    ((should_finalize_unhealthy 0 (text "demo") idle).1 ≡ false)
    × ((should_finalize_unhealthy
          (seconds 30)
          (text "demo")
          (sightings (text "demo") (0 ∷ seconds 15 ∷ []) idle)).1
        ≡ (not (is_within_grace (seconds 30) 0 idle.cfg.reconcile_grace)
            && not (is_above idle.cfg.reconcile_hits (length (seconds 15 ∷ []) + 2))))
unfolding Dict.lookup
should_finalize_unhealthy_run_example =
    should_finalize_unhealthy_run (text "demo") 0 (seconds 15 ∷ []) (seconds 30) idle refl
