-- ===== src/Sandbox/Lifecycle/ReturnedPorts.antt =====
-- What a creation does to the reservations of ports.
use mathlib.Core.Path.{subst}
use go_firecracker_container.Base.{
  ◌≡◌, refl, sym, ◌∙◌, Bool, true, ◌&&◌, none, [], ◌⊎◌, inl, inr, is_empty, contains, ◌==◌, nat_eq,
  list_eq, arith, Bool-cases, Option-cases,
}
use go_firecracker_container.Base.Text.{Text, text}
use go_firecracker_container.Base.Dict
use go_firecracker_container.Model.{Error, message, Result-cases, Sandbox, CreateSandboxRequest}
use go_firecracker_container.Model.Validate.{validate}
use go_firecracker_container.Machine.{Context, with_timeout}
use go_firecracker_container.Sandbox.Config.{Service, seconds}
use go_firecracker_container.Sandbox.Ports.{requested_keys, ensure_host_ports_available}
use go_firecracker_container.Sandbox.Ports.Reservations.{release_keys-reserve}
use go_firecracker_container.Sandbox.Phase.{new_sandbox_state}
use go_firecracker_container.Sandbox.World.{Host, World, on_memory}
use go_firecracker_container.Sandbox.Artifacts.{
  cleanup_host_port_publish, delete_sandbox_from_state,
}
use go_firecracker_container.Sandbox.Orphans.{
  cleanup_orphan, cleanup_orphan_runtime_sandbox, orphan_sandbox, sandbox_ip_from_cni_cache,
  has_runtime_artifacts,
}
use go_firecracker_container.Sandbox.Provision.{
  load, save, now, acquire, unlock, stages, roll_back, failed_state, provision_sandbox_sync,
}
use go_firecracker_container.Sandbox.Provision.Laws.{stages-KeepsId}
use go_firecracker_container.Sandbox.Provision.Outcome.{artifacts-keep}
use go_firecracker_container.Sandbox.Lifecycle.{
  clear_leftovers, save_and_provision, reserve_ports, give_back_ports, create_with_ports,
  create_new, create_unless_stored, create_locked, create_sandbox, list, listen,
}

-- Every reservation is as before, but the ports of the request, which may have become free.
abbrev pub AreReturned : CreateSandboxRequest → Service → Service → Type 0
AreReturned req before after =
    (k : Text)
    → (Dict.lookup k after.reserved_ports ≡ Dict.lookup k before.reserved_ports)
      ⊎ ((contains (requested_keys req.ports) k ≡ true)
          × (Dict.lookup k after.reserved_ports ≡ none))

give_back-AreReturned :
    (req : CreateSandboxRequest) (s : Service)
    → AreReturned req s (give_back_ports req.id req.ports (reserve_ports req.id req.ports s))
unfolding give_back_ports reserve_ports
give_back-AreReturned req s k =
    let given = release_keys-reserve req.id req.ports s.reserved_ports k in
    elim (Bool-cases (contains (requested_keys req.ports) k)) [
      | inl p ↦ inr (p, ground (arith, p, given))
      | inr p ↦ inl (ground (arith, p, given))
    ]

module _ (H : Host) where
  roll_back-memory : (x : World H × Sandbox) → (roll_back H x).memory ≡ x.0.memory
  unfolding roll_back
  roll_back-memory x =
      let failed = failed_state (H.clock.now x.0.machine) x.1 in
      (artifacts-keep H failed (save H failed x.0).0).1

  provision-memory :
      (ctx : Context H.Machine) (sbx : Sandbox) (req : CreateSandboxRequest) (w : World H)
      → (provision_sandbox_sync H ctx sbx req w).0.memory ≡ w.memory
  unfolding provision_sandbox_sync
  provision-memory ctx sbx req w =
      let end = (stages H ctx req (w, sbx)).0 in
      let ran = (stages-KeepsId H ctx req (w, sbx)).1 in
      elim (Option-cases (stages H ctx req (w, sbx)).1) [
        | inl p ↦ rw (p, provision_sandbox_sync) ran
        | inr (e, p) ↦ rw (p, provision_sandbox_sync) (roll_back-memory end ∙ ran)
      ]

  save_and_provision-memory :
      (ctx : Context H.Machine) (async : Bool) (req : CreateSandboxRequest) (w : World H)
      → (save_and_provision H ctx async req w).0.memory ≡ w.memory
  unfolding save_and_provision
  save_and_provision-memory ctx async req w =
      let sbx = new_sandbox_state w.memory.cfg (now H w) req in
      elim (Option-cases (save H sbx w).1) [
        | inr (e, p) ↦ rw (p, save_and_provision) refl
        | inl p ↦ elim (Bool-cases async) [
          | inl q ↦ rw (p, q, save_and_provision) refl
          | inr q ↦ rw (p, q, save_and_provision) (provision-memory ctx sbx req (save H sbx w).0)
        ]
      ]

  cleanup_orphan-memory :
      (tmp : Sandbox) (w : World H) → (cleanup_orphan H tmp w).0.memory ≡ w.memory
  unfolding cleanup_orphan cleanup_host_port_publish delete_sandbox_from_state
  cleanup_orphan-memory tmp w = elim (Bool-cases (is_empty tmp.containers && tmp.ip == [])) [
    | inl p ↦ rw (p, cleanup_orphan) refl
    | inr p ↦ rw (p, cleanup_orphan) (artifacts-keep H tmp w).1
  ]

  clear_leftovers-memory : (id : Text) (w : World H) → (clear_leftovers H id w).memory ≡ w.memory
  unfolding clear_leftovers cleanup_orphan_runtime_sandbox
  clear_leftovers-memory id w =
      elim (Bool-cases (has_runtime_artifacts H w.memory.cfg.namespace id w.machine)) [
        | inr p ↦ rw (p, clear_leftovers) refl
        | inl p ↦ elim (Result-cases (H.containerd.containers w.machine)) [
          | inr (e, q) ↦ rw (p, clear_leftovers, q, cleanup_orphan_runtime_sandbox) refl
          | inl (cs, q) ↦
              rw (p, clear_leftovers, q, cleanup_orphan_runtime_sandbox)
                (cleanup_orphan-memory
                  (orphan_sandbox w.memory.cfg id (sandbox_ip_from_cni_cache H id w.machine) cs) w)
        ]
      ]

  create_with_ports-AreReturned :
      (ctx : Context H.Machine) (async : Bool) (req : CreateSandboxRequest) (g : H.locks.Handle)
      (w : World H)
      → AreReturned req w.memory (create_with_ports H ctx async req g w).0.memory
  unfolding create_with_ports
  create_with_ports-AreReturned ctx async req g w =
      let reserved = unlock H g (on_memory H (reserve_ports req.id req.ports) w) in
      elim (Option-cases (
        ensure_host_ports_available req.id req.ports (list H w) w.memory.reserved_ports
          (listen H w))) [
            | inr (e, p) ↦ rw (p, create_with_ports) (λ k. inl refl)
            | inl p ↦
                rw (p, create_with_ports)
                  (subst (λ m. AreReturned req w.memory (give_back_ports req.id req.ports m))
                    (sym (save_and_provision-memory ctx async req reserved))
                    (give_back-AreReturned req w.memory))
          ]

  create_new-AreReturned :
      (ctx : Context H.Machine) (async : Bool) (req : CreateSandboxRequest) (w : World H)
      → AreReturned req w.memory (create_new H ctx async req w).0.memory
  unfolding create_new
  create_new-AreReturned ctx async req w =
      let v = clear_leftovers H req.id w in
      let u = (acquire H (text "_ports") v).0 in
      let same = clear_leftovers-memory req.id w in
      subst (λ m. AreReturned req m (create_new H ctx async req w).0.memory) same
        (elim (Result-cases (acquire H (text "_ports") v).1) [
          | inr (e, p) ↦ rw (p, create_new) (λ k. inl refl)
          | inl (g, p) ↦ rw (p, create_new) (create_with_ports-AreReturned ctx async req g u)
        ])

  create_locked-AreReturned :
      (ctx : Context H.Machine) (async : Bool) (req : CreateSandboxRequest) (w : World H)
      → AreReturned req w.memory (create_locked H ctx async req w).0.memory
  unfolding create_locked create_unless_stored
  create_locked-AreReturned ctx async req w = elim (Option-cases (validate req)) [
    | inr (e, v) ↦ rw (v, create_locked) (λ k. inl refl)
    | inl v ↦ elim (Result-cases (load H req.id w)) [
      | inl (t, p) ↦ rw (v, create_locked, p, create_unless_stored) (λ k. inl refl)
      | inr (message m, p) ↦ rw (v, create_locked, p, create_unless_stored) (λ k. inl refl)
      | inr (Error.not_exist, p) ↦
          rw (v, create_locked, p, create_unless_stored) (create_new-AreReturned ctx async req w)
    ]
  ]

  -- Whatever a creation returns, synchronous or not, it leaves every reservation of a port as it was,
  -- but that the ports of the request may have become free: it leaves no reservation behind.
  pub create_sandbox_returns_ports :
      (ctx : Context H.Machine) (req : CreateSandboxRequest) (async : Bool) (w : World H)
      → AreReturned req w.memory (create_sandbox H ctx req async w).0.memory
  unfolding create_sandbox
  create_sandbox_returns_ports ctx req async w = elim (Result-cases (acquire H req.id w).1) [
    | inr (e, p) ↦ rw (p, create_sandbox) (λ k. inl refl)
    | inl (f, p) ↦
        rw (p, create_sandbox)
          (create_locked-AreReturned (with_timeout H.clock ctx (seconds 90) w.machine) async req
            (acquire H req.id w).0)
  ]
