-- ===== src/Sandbox/Isolation/Operations.antt =====
-- Creation, deletion and reconciliation touch the stored state of their own sandbox alone.
use go_firecracker_container.Base.{
  ℕ, ◌≡◌, refl, ap, Bool, true, false, ◌&&◌, not, List, [], is_empty, contains, ◌==◌, nat_eq,
  list_eq, arith, if◌then◌else◌, Bool-cases, Option-cases, inl, inr,
}
use go_firecracker_container.Base.Text.{Text, text}
use go_firecracker_container.Model.{
  Error, message, ok, Result-cases, SandboxPhase, Sandbox, CreateSandboxRequest,
}
use go_firecracker_container.Model.Validate.{validate}
use go_firecracker_container.Machine.{Context, with_timeout}
use go_firecracker_container.Store
use go_firecracker_container.Base.Paths.{IsPlain}
use go_firecracker_container.Sandbox.Config.{Config, Service, seconds}
use go_firecracker_container.Sandbox.Ports.{ensure_host_ports_available}
use go_firecracker_container.Sandbox.Phase.{
  set_sandbox_phase, new_sandbox_state, is_creating, is_deleting,
}
use go_firecracker_container.Sandbox.Health.{clear_unhealthy, should_finalize_unhealthy}
use go_firecracker_container.Sandbox.World.{Host, World, on_memory}
use go_firecracker_container.Sandbox.Artifacts.{
  cleanup_host_port_publish, delete_sandbox_from_state,
}
use go_firecracker_container.Sandbox.Orphans.{
  cleanup_orphan, cleanup_orphan_runtime_sandbox, orphan_sandbox, sandbox_ip_from_cni_cache,
  has_runtime_artifacts,
}
use go_firecracker_container.Sandbox.Provision.{
  load, save, now, acquire, unlock, provision_sandbox_sync,
}
use go_firecracker_container.Sandbox.Lifecycle.{
  clear_leftovers, save_and_provision, reserve_ports, give_back_ports, release_ports,
  create_with_ports, create_new, create_unless_stored, create_locked, create_sandbox, delete_stored,
  delete_locked, delete_sandbox, list, listen,
}
use go_firecracker_container.Sandbox.Reconcile.{
  is_locked, is_healthy, is_provisioning, finalize_if_due, time_out, reconcile_unlocked,
  reconcile_stored,
}
use go_firecracker_container.Sandbox.Isolation.{
  IsIsolated, IsIsolated-trans, save-IsIsolated, delete_sandbox_from_state-IsIsolated,
  provision-IsIsolated,
}

should_finalize_unhealthy-cfg :
    (now : ℕ) (id : Text) (s : Service) → (should_finalize_unhealthy now id s).0.cfg ≡ s.cfg
unfolding should_finalize_unhealthy
should_finalize_unhealthy-cfg now id s = ground arith

module _ (H : Host) (L : Store.IsLawful H.files) where
  cleanup_orphan-IsIsolated :
      (id : Text) (tmp : Sandbox) (w : World H)
      → tmp.id ≡ id
      → IsPlain id
      → IsIsolated H id w (cleanup_orphan H tmp w).0
  unfolding cleanup_orphan cleanup_host_port_publish
  cleanup_orphan-IsIsolated id tmp w same plain =
      elim (Bool-cases (is_empty tmp.containers && tmp.ip == [])) [
        | inl p ↦ rw (p, cleanup_orphan) (refl, λ j q d. refl)
        | inr p ↦
            rw (p, cleanup_orphan) (delete_sandbox_from_state-IsIsolated H L id tmp w same plain)
      ]

  cleanup_orphan_runtime_sandbox-IsIsolated :
      (id : Text) (w : World H)
      → IsPlain id
      → IsIsolated H id w (cleanup_orphan_runtime_sandbox H id w).0
  unfolding cleanup_orphan_runtime_sandbox orphan_sandbox
  cleanup_orphan_runtime_sandbox-IsIsolated id w plain =
      elim (Result-cases (H.containerd.containers w.machine)) [
        | inr (e, p) ↦ rw (p, cleanup_orphan_runtime_sandbox) (refl, λ j q d. refl)
        | inl (cs, p) ↦
            rw (p, cleanup_orphan_runtime_sandbox)
              (cleanup_orphan-IsIsolated id
                (orphan_sandbox w.memory.cfg id (sandbox_ip_from_cni_cache H id w.machine) cs) w
                refl plain)
      ]

  clear_leftovers-IsIsolated :
      (id : Text) (w : World H) → IsPlain id → IsIsolated H id w (clear_leftovers H id w)
  unfolding clear_leftovers
  clear_leftovers-IsIsolated id w plain =
      elim (Bool-cases (has_runtime_artifacts H w.memory.cfg.namespace id w.machine)) [
        | inl p ↦ rw (p, clear_leftovers) (cleanup_orphan_runtime_sandbox-IsIsolated id w plain)
        | inr p ↦ rw (p, clear_leftovers) (refl, λ j q d. refl)
      ]

  save_and_provision-IsIsolated :
      (ctx : Context H.Machine) (async : Bool) (req : CreateSandboxRequest) (w : World H)
      → IsPlain req.id
      → IsIsolated H req.id w (save_and_provision H ctx async req w).0
  unfolding save_and_provision new_sandbox_state
  save_and_provision-IsIsolated ctx async req w plain =
      let sbx = new_sandbox_state w.memory.cfg (now H w) req in
      let v = (save H sbx w).0 in
      let saved = save-IsIsolated H L req.id sbx w refl plain in
      elim (Option-cases (save H sbx w).1) [
        | inr (e, p) ↦ rw (p, save_and_provision) saved
        | inl p ↦ elim (Bool-cases async) [
          | inl q ↦ rw (p, q, save_and_provision) saved
          | inr q ↦
              rw (p, q, save_and_provision)
                (IsIsolated-trans H req.id w v (provision_sandbox_sync H ctx sbx req v).0 saved
                  (provision-IsIsolated H L ctx sbx req v plain))
        ]
      ]

  create_with_ports-IsIsolated :
      (ctx : Context H.Machine) (async : Bool) (req : CreateSandboxRequest) (g : H.locks.Handle)
      (w : World H)
      → IsPlain req.id
      → IsIsolated H req.id w (create_with_ports H ctx async req g w).0
  unfolding create_with_ports give_back_ports reserve_ports
  create_with_ports-IsIsolated ctx async req g w plain =
      elim (Option-cases (
        ensure_host_ports_available req.id req.ports (list H w) w.memory.reserved_ports
          (listen H w))) [
            | inr (e, p) ↦ rw (p, create_with_ports) (refl, λ j q d. refl)
            | inl p ↦
                rw (p, create_with_ports)
                  (save_and_provision-IsIsolated ctx async req
                    (unlock H g (on_memory H (reserve_ports req.id req.ports) w)) plain)
          ]

  create_new-IsIsolated :
      (ctx : Context H.Machine) (async : Bool) (req : CreateSandboxRequest) (w : World H)
      → IsPlain req.id
      → IsIsolated H req.id w (create_new H ctx async req w).0
  unfolding create_new
  create_new-IsIsolated ctx async req w plain =
      let v = clear_leftovers H req.id w in
      let u = (acquire H (text "_ports") v).0 in
      let cleared = clear_leftovers-IsIsolated req.id w plain in
      elim (Result-cases (acquire H (text "_ports") v).1) [
        | inr (e, p) ↦ rw (p, create_new) cleared
        | inl (g, p) ↦
            rw (p, create_new)
              (IsIsolated-trans H req.id w u (create_with_ports H ctx async req g u).0 cleared
                (create_with_ports-IsIsolated ctx async req g u plain))
      ]

  create_locked-IsIsolated :
      (ctx : Context H.Machine) (async : Bool) (req : CreateSandboxRequest) (w : World H)
      → IsPlain req.id
      → IsIsolated H req.id w (create_locked H ctx async req w).0
  unfolding create_locked create_unless_stored
  create_locked-IsIsolated ctx async req w plain = elim (Option-cases (validate req)) [
    | inr (e, v) ↦ rw (v, create_locked) (refl, λ j q d. refl)
    | inl v ↦ elim (Result-cases (load H req.id w)) [
      | inl (t, p) ↦ rw (v, create_locked, p, create_unless_stored) (refl, λ j q d. refl)
      | inr (message m, p) ↦ rw (v, create_locked, p, create_unless_stored) (refl, λ j q d. refl)
      | inr (Error.not_exist, p) ↦
          rw (v, create_locked, p, create_unless_stored)
            (create_new-IsIsolated ctx async req w plain)
    ]
  ]

  -- A creation, synchronous or not and whether it succeeds, of a sandbox whose id names one entry of a
  -- directory leaves the stored states of all others as they were.
  pub create_sandbox-IsIsolated :
      (ctx : Context H.Machine) (req : CreateSandboxRequest) (async : Bool) (w : World H)
      → IsPlain req.id
      → IsIsolated H req.id w (create_sandbox H ctx req async w).0
  unfolding create_sandbox
  create_sandbox-IsIsolated ctx req async w plain = elim (Result-cases (acquire H req.id w).1) [
    | inr (e, p) ↦ rw (p, create_sandbox) (refl, λ j q d. refl)
    | inl (f, p) ↦
        rw (p, create_sandbox)
          (create_locked-IsIsolated (with_timeout H.clock ctx (seconds 90) w.machine) async req
            (acquire H req.id w).0 plain)
  ]

  delete_stored-IsIsolated :
      (id : Text) (sbx : Sandbox) (w : World H)
      → sbx.id ≡ id
      → IsPlain id
      → IsIsolated H id w (delete_stored H id sbx w).0
  unfolding delete_stored set_sandbox_phase clear_unhealthy release_ports
  delete_stored-IsIsolated id sbx w same plain =
      let deleting = set_sandbox_phase (now H w) SandboxPhase.deleting [] sbx in
      let v = (save H deleting w).0 in
      IsIsolated-trans H id w v (delete_sandbox_from_state H deleting v).0
        (save-IsIsolated H L id deleting w same plain)
        (delete_sandbox_from_state-IsIsolated H L id deleting v same plain)

  -- A deletion of a sandbox that is stored under its own id, the name of one entry of a directory, leaves the stored
  -- states of all others as they were, whether it succeeds or not.
  pub delete_sandbox-IsIsolated :
      (id : Text) (w : World H)
      → IsPlain id
      → ((sbx : Sandbox) → load H id w ≡ ok sbx → sbx.id ≡ id)
      → IsIsolated H id w (delete_sandbox H id w).0
  unfolding delete_sandbox delete_locked release_ports
  delete_sandbox-IsIsolated id w plain named =
      let v = (acquire H id w).0 in
      elim (Result-cases (acquire H id w).1) [
        | inr (e, p) ↦ rw (p, delete_sandbox) (refl, λ j q d. refl)
        | inl (f, p) ↦ elim (Result-cases (load H id w)) [
          | inl (sbx, r) ↦
              rw (p, delete_sandbox, r, delete_locked)
                (delete_stored-IsIsolated id sbx v (named sbx r) plain)
          | inr (message m, r) ↦ rw (p, delete_sandbox, r, delete_locked) (refl, λ j q d. refl)
          | inr (Error.not_exist, r) ↦
              rw (p, delete_sandbox, r, delete_locked) (refl, λ j q d. refl)
        ]
      ]

  finalize_if_due-IsIsolated :
      (sbx : Sandbox) (w : World H)
      → IsPlain sbx.id
      → IsIsolated H sbx.id w (finalize_if_due H sbx w)
  unfolding finalize_if_due clear_unhealthy
  finalize_if_due-IsIsolated sbx w plain =
      let answer = should_finalize_unhealthy (now H w) sbx.id w.memory in
      let cfg = should_finalize_unhealthy-cfg (now H w) sbx.id w.memory in
      let seen : World H = record w { memory = answer.0 } in
      let kept : IsIsolated H sbx.id w seen = (
        ap (λ (c : Config). c.state_base_dir) cfg,
        λ j q d. ap (λ (c : Config). Store.load H.files H.codec c.state_base_dir j w.files) cfg,
      ) in
      elim (Bool-cases answer.1) [
        | inr p ↦ rw (p, finalize_if_due) kept
        | inl p ↦
            rw (p, finalize_if_due)
              (IsIsolated-trans H sbx.id w seen (delete_sandbox_from_state H sbx seen).0 kept
                (delete_sandbox_from_state-IsIsolated H L sbx.id sbx seen refl plain))
      ]

  time_out-IsIsolated :
      (sbx : Sandbox) (w : World H) → IsPlain sbx.id → IsIsolated H sbx.id w (time_out H sbx w)
  unfolding time_out set_sandbox_phase
  time_out-IsIsolated sbx w plain =
      save-IsIsolated H L sbx.id
        (set_sandbox_phase (now H w) SandboxPhase.error (text "provisioning timeout") sbx) w refl
        plain

  if-IsIsolated :
      (id : Text) (w u v : World H) (b : Bool)
      → IsIsolated H id w u
      → IsIsolated H id w v
      → IsIsolated H id w (if b then u else v)
  if-IsIsolated id w u v true h k = h
  if-IsIsolated id w u v false h k = k

  reconcile_unlocked-IsIsolated :
      (runtime_ids : List Text) (sbx : Sandbox) (w : World H)
      → IsPlain sbx.id
      → IsIsolated H sbx.id w (reconcile_unlocked H runtime_ids sbx w)
  unfolding reconcile_unlocked clear_unhealthy
  reconcile_unlocked-IsIsolated runtime_ids sbx w plain =
      let same : IsIsolated H sbx.id w w = (refl, λ j q d. refl) in
      let due = finalize_if_due-IsIsolated sbx w plain in
      if-IsIsolated sbx.id w _ _ (is_deleting sbx.phase) same (
        if-IsIsolated sbx.id w _ _ (is_provisioning (now H w) sbx) same (
          if-IsIsolated sbx.id w _ _ (is_creating sbx.phase) (time_out-IsIsolated sbx w plain) (
            if-IsIsolated sbx.id w _ _ (not (contains runtime_ids sbx.id)) due
              (if-IsIsolated sbx.id w _ _ (not (is_healthy H sbx w)) due (refl, λ j q d. refl)))))

  -- A reconciliation of one sandbox, whose id names one entry of a directory, leaves the stored states of all
  -- others as they were, whether it is passed over, timed out, deleted or found healthy.
  pub reconcile_stored-IsIsolated :
      (runtime_ids : List Text) (sbx : Sandbox) (w : World H)
      → IsPlain sbx.id
      → IsIsolated H sbx.id w (reconcile_stored H runtime_ids sbx w)
  unfolding reconcile_stored
  reconcile_stored-IsIsolated runtime_ids sbx w plain =
      if-IsIsolated sbx.id w _ _ (is_locked H sbx.id w).1 (refl, λ j q d. refl)
        (reconcile_unlocked-IsIsolated runtime_ids sbx (is_locked H sbx.id w).0 plain)
