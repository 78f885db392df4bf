-- ===== src/Sandbox/Health.antt =====
-- The memory of unhealthy sandboxes: `shouldFinalizeUnhealthy` and `clearUnhealthy` of
-- internal/sandbox/reconcile.go, the bodies under `reconcileMu`. Times are nanoseconds.
pub mod Trace
mod Tests
use go_firecracker_container.Base.{
  ℕ, suc, ◌+◌, Bool, true, false, not, Option, none, some, List, [], ◌∷◌, ltb, leb, nat_eq, list_eq,
  if◌then◌else◌,
}
use go_firecracker_container.Base.Text.{Text}
use go_firecracker_container.Base.Integer.{ℤ, pos, negsuc, is_above}
use go_firecracker_container.Base.Dict
use go_firecracker_container.Sandbox.Config.{Config, Service}

-- `now.Sub(since) < grace`
abbrev pub is_within_grace : ℕ → ℕ → ℤ → Bool
is_within_grace now since (pos grace) = ltb now (since + grace)
is_within_grace now since (negsuc n) = ltb (now + suc n) since

-- `m[id]`, 0 if it is missing.
abbrev pub count_of : Option ℕ → ℕ
count_of none = 0
count_of (some n) = n

abbrev first_sight : ℕ → Text → Service → Service
first_sight now id s = record s {
  unhealthy_since = Dict.insert id now s.unhealthy_since;
  unhealthy_hits = Dict.insert id 1 s.unhealthy_hits;
}

abbrev next_sight : Text → Service → Service
next_sight id s = record s {
  unhealthy_hits = Dict.insert id (count_of (Dict.lookup id s.unhealthy_hits) + 1) s.unhealthy_hits;
}

unfoldable pub should_finalize_unhealthy : ℕ → Text → Service → Service × Bool
should_finalize_unhealthy now id s = elim (Dict.lookup id s.unhealthy_since) [
  | none ↦ (first_sight now id s, false)
  | some since ↦
      let t = next_sight id s in
      if is_within_grace now since s.cfg.reconcile_grace
      then (t, false)
      else (t, not (is_above s.cfg.reconcile_hits (count_of (Dict.lookup id t.unhealthy_hits))))
]

unfoldable pub clear_unhealthy : Text → Service → Service
clear_unhealthy id s = record s {
  unhealthy_since = Dict.delete id s.unhealthy_since;
  unhealthy_hits = Dict.delete id s.unhealthy_hits;
}
