-- ===== src/Sandbox/Health/Trace.antt =====
-- Runs of unhealthy sightings.
use go_firecracker_container.Base.{
  ℕ, suc, ◌+◌, ◌≡◌, false, not, ◌&&◌, none, some, List, [], ◌∷◌, length, ◌==◌, nat_eq, list_eq,
  arith, if◌then◌else◌,
}
use go_firecracker_container.Base.Text.{Text}
use go_firecracker_container.Base.Integer.{is_above}
use go_firecracker_container.Base.Dict
use go_firecracker_container.Sandbox.Config.{Config, Service}
use go_firecracker_container.Sandbox.Health.{
  is_within_grace, should_finalize_unhealthy, clear_unhealthy,
}

-- The sandbox is seen unhealthy at these times, in turn.
abbrev pub sightings : Text → List ℕ → Service → Service
sightings id [] s = s
sightings id (t ∷ ts) s = sightings id ts (should_finalize_unhealthy t id s).0

-- The first sighting of the present run, and the number of sightings in it.
record Tracks (id : Text) (first count : ℕ) (cfg : Config) (s : Service) : Type 0 where
  since : Dict.lookup id s.unhealthy_since ≡ some first
  hits : Dict.lookup id s.unhealthy_hits ≡ some count
  config : s.cfg ≡ cfg

first-Tracks :
    (id : Text) (t : ℕ) (s : Service)
    → Dict.lookup id s.unhealthy_since ≡ none
    → Tracks id t 1 s.cfg (should_finalize_unhealthy t id s).0
      × ((should_finalize_unhealthy t id s).1 ≡ false)
unfolding should_finalize_unhealthy
first-Tracks id t s h = ground (
  arith,
  Dict.lookup-insert id id t s.unhealthy_since,
  Dict.lookup-insert id id 1 s.unhealthy_hits,
)

next-Tracks :
    (id : Text) (t first count : ℕ) (cfg : Config) (s : Service)
    → Tracks id first count cfg s
    → Tracks id first (suc count) cfg (should_finalize_unhealthy t id s).0
      × ((should_finalize_unhealthy t id s).1 ≡ (
          not (is_within_grace t first cfg.reconcile_grace)
          && not (is_above cfg.reconcile_hits (suc count))))
unfolding should_finalize_unhealthy
next-Tracks id t first count cfg s k =
    rw (k.since, k.hits, k.config, should_finalize_unhealthy)
      (ground (arith, Dict.lookup-insert id id (count + 1) s.unhealthy_hits))

sightings-Tracks :
    (id : Text) (ts : List ℕ) (first count n : ℕ) (cfg : Config) (s : Service)
    → n ≡ count + length ts
    → Tracks id first count cfg s
    → Tracks id first n cfg (sightings id ts s)
sightings-Tracks id [] first count n cfg s e k = let same : n ≡ count = omega arith in rw same k
sightings-Tracks id (t ∷ ts) first count n cfg s e k =
    sightings-Tracks id ts first (suc count) n cfg _ (omega arith)
      (next-Tracks id t first count cfg s k).0

-- A sandbox that was not known as unhealthy, then seen unhealthy at `first`, at the times `ts` and
-- at `now`: it is given up at `now` exactly if the grace since `first` is over and the sightings are
-- as many as the configuration asks for. The sighting at `first` alone never gives it up.
pub should_finalize_unhealthy_run :
    (id : Text) (first : ℕ) (ts : List ℕ) (now : ℕ) (s : Service)
    → Dict.lookup id s.unhealthy_since ≡ none
    → ((should_finalize_unhealthy first id s).1 ≡ false)
      × ((should_finalize_unhealthy now id (sightings id (first ∷ ts) s)).1 ≡ (
          not (is_within_grace now first s.cfg.reconcile_grace)
          && not (is_above s.cfg.reconcile_hits (length ts + 2))))
should_finalize_unhealthy_run id first ts now s h =
    let start = first-Tracks id first s h in
    let run = sightings-Tracks id ts first 1 (length ts + 1) s.cfg _ (omega arith) start.0 in
    let count : suc (length ts + 1) ≡ length ts + 2 = omega arith in
    (start.1, rw count at (next-Tracks id now first (length ts + 1) s.cfg _ run).1)

-- `clearUnhealthy` forgets the run of a sandbox, and no other run.
pub clear_unhealthy_lem :
    (id other : Text) (s : Service)
    → (Dict.lookup other (clear_unhealthy id s).unhealthy_since
        ≡ (if other == id then none else Dict.lookup other s.unhealthy_since))
      × (Dict.lookup other (clear_unhealthy id s).unhealthy_hits
          ≡ (if other == id then none else Dict.lookup other s.unhealthy_hits))
unfolding clear_unhealthy
clear_unhealthy_lem id other s =
    (Dict.lookup-delete other id s.unhealthy_since, Dict.lookup-delete other id s.unhealthy_hits)
