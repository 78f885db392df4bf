-- ===== src/Sandbox/Lifecycle/Creation.antt =====
-- What a creation leaves.
use mathlib.Core.Path.{subst}
use go_firecracker_container.Base.{
  ◌≡◌, ◌≢◌, refl, sym, ◌∙◌, ap, Bool, true, false, none, inl, inr, nat_eq, list_eq, if◌then◌else◌,
  arith, Option-cases,
}
use go_firecracker_container.Base.Text.{Text, text}
use go_firecracker_container.Model.{
  Error, message, Result, ok, err, Result-cases, SandboxPhase, Sandbox, CreateSandboxRequest,
}
use go_firecracker_container.Model.Validate.{validate}
use go_firecracker_container.Machine.{Context, with_timeout}
use go_firecracker_container.Store
use go_firecracker_container.Sandbox.Config.{seconds}
use go_firecracker_container.Sandbox.Ports.{ensure_host_ports_available}
use go_firecracker_container.Sandbox.Phase.{new_sandbox_state}
use go_firecracker_container.Sandbox.Locks.{lock_path}
use go_firecracker_container.Sandbox.Locks.Laws.{Excludes, acquire_holds, acquire_excludes}
use go_firecracker_container.Sandbox.World.{Host, World, on_memory}
use go_firecracker_container.Sandbox.Orphans.{has_runtime_artifacts}
use go_firecracker_container.Sandbox.Provision.{load, save, now, acquire, unlock}
use go_firecracker_container.Sandbox.Provision.Outcome.{
  ok-injective, load_saved, provision_saves_running,
}
use go_firecracker_container.Sandbox.Lifecycle.{
  clear_leftovers, save_and_provision, reserve_ports, give_back_ports, create_with_ports,
  create_new, create_unless_stored, create_locked, create_sandbox, list, listen,
}

abbrev pub phase_after : Bool → SandboxPhase
phase_after async = if async then SandboxPhase.creating else SandboxPhase.running

module _ (H : Host) where
  -- An outcome with a sandbox is the stored one, in the phase that the call leaves it in.
  abbrev pub IsStored : Text → Bool → World H × Result Sandbox → Sandbox → Type 0
  IsStored id async r s = (load H id r.0 ≡ ok s) × (s.id ≡ id) × (s.phase ≡ phase_after async)

  create_locked-new :
      (ctx : Context H.Machine) (async : Bool) (req : CreateSandboxRequest) (w : World H)
      (s : Sandbox)
      → (create_locked H ctx async req w).1 ≡ ok s
      → (validate req ≡ none)
        × (load H req.id w ≡ err Error.not_exist)
        × (create_locked H ctx async req w ≡ create_new H ctx async req w)
  unfolding create_locked create_unless_stored
  create_locked-new ctx async req w s h = elim (Option-cases (validate req)) [
    | inr (e, v) ↦ absurd (ground (arith, h, v))
    | inl v ↦ elim (Result-cases (load H req.id w)) [
      | inl (t, p) ↦ absurd (ground (arith, h, v, p))
      | inr (message m, p) ↦ absurd (ground (arith, h, v, p))
      | inr (Error.not_exist, p) ↦ rw (v, create_locked, p, create_unless_stored) (refl, refl, refl)
    ]
  ]

  create_locked-ok :
      (ctx : Context H.Machine) (req : CreateSandboxRequest) (async : Bool) (w : World H)
      (s : Sandbox) (f : H.locks.Handle)
      → (create_sandbox H ctx req async w).1 ≡ ok s
      → (acquire H req.id w).1 ≡ ok f
      → (create_locked H
          (with_timeout H.clock ctx (seconds 90) w.machine)
          async
          req
          (acquire H req.id w).0).1
        ≡ ok s
  unfolding create_sandbox
  create_locked-ok ctx req async w s f h p = ground (arith, h, p)

  create_new-locked :
      (ctx : Context H.Machine) (async : Bool) (req : CreateSandboxRequest) (w : World H)
      (s : Sandbox)
      → (create_new H ctx async req w).1 ≡ ok s
      → (g : H.locks.Handle) × ((acquire H (text "_ports") (clear_leftovers H req.id w)).1 ≡ ok g)
  unfolding create_new
  create_new-locked ctx async req w s h =
      elim (Result-cases (acquire H (text "_ports") (clear_leftovers H req.id w)).1) [
        | inr (e, p) ↦ absurd (ground (arith, h, p))
        | inl (g, p) ↦ (g, p)
      ]

  module _ (L : Store.IsLawful H.files) (K : Store.IsFaithful H.codec) where
    save_and_provision-IsStored :
        (ctx : Context H.Machine) (async : Bool) (req : CreateSandboxRequest) (w : World H)
        (s : Sandbox)
        → (save_and_provision H ctx async req w).1 ≡ ok s
        → IsStored req.id async (save_and_provision H ctx async req w) s
    unfolding save_and_provision new_sandbox_state
    save_and_provision-IsStored ctx true req w s h =
        let sbx = new_sandbox_state w.memory.cfg (now H w) req in
        elim (Option-cases (save H sbx w).1) [
          | inr (e, p) ↦ absurd (ground (arith, h, p))
          | inl p ↦
              let same : sbx ≡ s = ok-injective (ground (arith, h, p)) in
              rw (p, save_and_provision)
                (
                  load_saved H L K sbx w p ∙ ap ok same,
                  ap (λ t. t.id) (sym same),
                  ap (λ t. t.phase) (sym same),
                )
        ]
    save_and_provision-IsStored ctx false req w s h =
        let sbx = new_sandbox_state w.memory.cfg (now H w) req in
        elim (Option-cases (save H sbx w).1) [
          | inr (e, p) ↦ absurd (ground (arith, h, p))
          | inl p ↦
              let (phase, error, own, stored) =
                provision_saves_running H L K ctx sbx s req (save H sbx w).0
                  (ground (arith, h, p)) in
              rw (p, save_and_provision) (stored, own, phase)
        ]

    create_with_ports-IsStored :
        (ctx : Context H.Machine) (async : Bool) (req : CreateSandboxRequest) (g : H.locks.Handle)
        (w : World H) (s : Sandbox)
        → (create_with_ports H ctx async req g w).1 ≡ ok s
        → IsStored req.id async (create_with_ports H ctx async req g w) s
    unfolding create_with_ports give_back_ports reserve_ports
    create_with_ports-IsStored ctx async req g w s h =
        elim (Option-cases (
          ensure_host_ports_available req.id req.ports (list H w) w.memory.reserved_ports
            (listen H w))) [
              | inr (e, p) ↦ absurd (ground (arith, h, p))
              | inl p ↦
                  rw (p, create_with_ports)
                    (save_and_provision-IsStored ctx async req
                      (unlock H g (on_memory H (reserve_ports req.id req.ports) w)) s
                      (ground (arith, h, p)))
            ]

    create_new-IsStored :
        (ctx : Context H.Machine) (async : Bool) (req : CreateSandboxRequest) (w : World H)
        (s : Sandbox)
        → (create_new H ctx async req w).1 ≡ ok s
        → IsStored req.id async (create_new H ctx async req w) s
    unfolding create_new
    create_new-IsStored ctx async req w s h =
        let v = clear_leftovers H req.id w in
        elim (Result-cases (acquire H (text "_ports") v).1) [
          | inr (e, p) ↦ absurd (ground (arith, h, p))
          | inl (g, p) ↦
              rw (p, create_new)
                (create_with_ports-IsStored ctx async req g (acquire H (text "_ports") v).0 s
                  (ground (arith, h, p)))
        ]

    create_locked-IsStored :
        (ctx : Context H.Machine) (async : Bool) (req : CreateSandboxRequest) (w : World H)
        (s : Sandbox)
        → (create_locked H ctx async req w).1 ≡ ok s
        → (validate req ≡ none)
          × (load H req.id w ≡ err Error.not_exist)
          × IsStored req.id async (create_locked H ctx async req w) s
    create_locked-IsStored ctx async req w s h =
        let (valid, absent, run) = create_locked-new ctx async req w s h in
        (
          valid,
          absent,
          subst (λ r. IsStored req.id async r s) (sym run)
              (create_new-IsStored ctx async req w s (sym (ap (λ r. r.1) run) ∙ h)),
        )

    -- A creation that succeeds was of a valid request for an id that was not stored, and the sandbox
    -- that it returns has that id, is what the store gives for it, and is in the phase "creating" if
    -- the call is asynchronous and "running" if it is not.
    pub create_sandbox_stores :
        (ctx : Context H.Machine) (req : CreateSandboxRequest) (async : Bool) (w : World H)
        (s : Sandbox)
        → (create_sandbox H ctx req async w).1 ≡ ok s
        → (validate req ≡ none)
          × (load H req.id w ≡ err Error.not_exist)
          × IsStored req.id async (create_sandbox H ctx req async w) s
    unfolding create_sandbox
    create_sandbox_stores ctx req async w s h = elim (Result-cases (acquire H req.id w).1) [
      | inr (e, p) ↦ absurd (ground (arith, h, p))
      | inl (f, p) ↦
          rw (p, create_sandbox)
            (create_locked-IsStored (with_timeout H.clock ctx (seconds 90) w.machine) async req
              (acquire H req.id w).0 s (create_locked-ok ctx req async w s f h p))
    ]

module _ (H : Host) (held : H.Machine → Text → Bool) (blocked : H.Machine → H.locks.Handle → Bool)
    (of_path : H.Machine → H.locks.Handle → Text)
    (X : Excludes H.clock H.locks held blocked of_path) where
  clear_leftovers-none :
      (id : Text) (w : World H)
      → has_runtime_artifacts H w.memory.cfg.namespace id w.machine ≡ false
      → clear_leftovers H id w ≡ w
  unfolding clear_leftovers
  clear_leftovers-none id w h = rw h refl

  -- If the lock files exclude and nothing on the host is named after "_ports", a request for a sandbox
  -- of this id never succeeds: the lock of the sandbox is the lock of the ports that the creation
  -- then waits for.
  pub create_ports_refused :
      (ctx : Context H.Machine) (req : CreateSandboxRequest) (async : Bool) (w : World H)
      (s : Sandbox)
      → req.id ≡ text "_ports"
      → has_runtime_artifacts H w.memory.cfg.namespace req.id (acquire H req.id w).0.machine ≡ false
      → (create_sandbox H ctx req async w).1 ≢ ok s
  unfolding create_sandbox
  create_ports_refused ctx req async w s named clean h =
      let v = (acquire H req.id w).0 in
      let dir = w.memory.cfg.lock_dir in
      elim (Result-cases (acquire H req.id w).1) [
        | inr (e, p) ↦ ground (arith, h, p)
        | inl (f, p) ↦
            let op_ctx = with_timeout H.clock ctx (seconds 90) w.machine in
            let (valid, absent, run) =
              create_locked-new H op_ctx async req v s
                (create_locked-ok H ctx req async w s f h p) in
            let (g, q) =
              create_new-locked H op_ctx async req v s
                (sym (ap (λ r. r.1) run) ∙ create_locked-ok H ctx req async w s f h p) in
            acquire_excludes H.clock H.locks dir held blocked of_path X (text "_ports") v.machine g
              (subst (λ i. held v.machine (lock_path dir i) ≡ true) named
                (acquire_holds H.clock H.locks dir held blocked of_path X req.id w.machine f p))
              (subst (λ u. (acquire H (text "_ports") u).1 ≡ ok g)
                (clear_leftovers-none req.id v clean) q)
      ]
