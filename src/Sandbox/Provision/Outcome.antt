-- ===== src/Sandbox/Provision/Outcome.antt =====
-- How a provisioning ends: the stored sandbox runs, or its failure is recorded.
use mathlib.Core.Path.{subst}
use go_firecracker_container.Base.{
  ◌≡◌, refl, sym, ◌∙◌, ap, none, some, [], ◌⊎◌, inl, inr, nat_eq, list_eq, arith, Option-cases,
}
use go_firecracker_container.Base.Text.{Text}
use go_firecracker_container.Model.{Error, ok, err, SandboxPhase, Sandbox, CreateSandboxRequest}
use go_firecracker_container.Machine.{Context}
use go_firecracker_container.Store
use go_firecracker_container.Store.Laws.{load-save_same}
use go_firecracker_container.Sandbox.Phase.{set_sandbox_phase, is_error_phase}
use go_firecracker_container.Sandbox.World.{Host, World, on_machine}
use go_firecracker_container.Sandbox.Waits.{wait_published_tcp_ready}
use go_firecracker_container.Sandbox.Artifacts.{
  delete_sandbox_runtime_artifacts, cleanup_host_port_publish, cleanup_sandbox_network_policy,
}
use go_firecracker_container.Sandbox.Provision.{
  now, refreshed, load, save, save_running, stages, roll_back, provision_sandbox_sync, base_dir,
}
use go_firecracker_container.Sandbox.Provision.Laws.{stages-KeepsId, stages_end}

pub ok-injective : {A : Type 0} {a b : A} → ok a ≡ ok b → a ≡ b
ok-injective h = cc

module _ (H : Host) where
  -- The removal of the artifacts touches neither the files of the store nor the memory.
  pub artifacts-keep :
      (sbx : Sandbox) (w : World H)
      → ((delete_sandbox_runtime_artifacts H sbx w).0.files ≡ w.files)
        × ((delete_sandbox_runtime_artifacts H sbx w).0.memory ≡ w.memory)
  unfolding delete_sandbox_runtime_artifacts cleanup_host_port_publish
      cleanup_sandbox_network_policy
  artifacts-keep sbx w = ground arith

  -- The stored sandbox has left the phase "creating".
  abbrev pub IsSettled : Text → World H → Type 0
  IsSettled id w =
      (s : Sandbox) × (load H id w ≡ ok s)
      × ((s.phase ≡ SandboxPhase.running) ⊎ (s.phase ≡ SandboxPhase.error))

  provision-succeeds :
      (ctx : Context H.Machine) (sbx : Sandbox) (req : CreateSandboxRequest) (w : World H)
      → (stages H ctx req (w, sbx)).1 ≡ none
      → provision_sandbox_sync H ctx sbx req w
        ≡ ((stages H ctx req (w, sbx)).0.0, ok (stages H ctx req (w, sbx)).0.1)
  unfolding provision_sandbox_sync
  provision-succeeds ctx sbx req w p = rw (p, provision_sandbox_sync) refl

  provision-fails :
      (ctx : Context H.Machine) (sbx : Sandbox) (req : CreateSandboxRequest) (e : Error)
      (w : World H)
      → (stages H ctx req (w, sbx)).1 ≡ some e
      → provision_sandbox_sync H ctx sbx req w ≡ (roll_back H (stages H ctx req (w, sbx)).0, err e)
  unfolding provision_sandbox_sync
  provision-fails ctx sbx req e w p = rw (p, provision_sandbox_sync) refl

  module _ (L : Store.IsLawful H.files) (K : Store.IsFaithful H.codec) where
    pub load_saved :
        (sbx : Sandbox) (w : World H)
        → (save H sbx w).1 ≡ none
        → load H sbx.id (save H sbx w).0 ≡ ok sbx
    load_saved sbx w h = load-save_same H.files H.codec L K (base_dir H w) sbx w.files h

    -- A sandbox that runs, without an error, and is stored.
    abbrev RunsStored : World H × Sandbox → Type 0
    RunsStored x =
        (x.1.phase ≡ SandboxPhase.running) × (x.1.error ≡ []) × (load H x.1.id x.0 ≡ ok x.1)

    save_running-RunsStored :
        (x : World H × Sandbox) → (save_running H x).1 ≡ none → RunsStored (save_running H x).0
    unfolding save_running set_sandbox_phase is_error_phase list_eq
    save_running-RunsStored x h =
        let v = (on_machine H (wait_published_tcp_ready H.clock H.sockets x.1) x.0).0 in
        (
          refl,
          refl,
          load_saved (set_sandbox_phase (now H v) SandboxPhase.running [] (refreshed H v x.1)) v h,
        )

    stages-RunsStored :
        (ctx : Context H.Machine) (req : CreateSandboxRequest) (x : World H × Sandbox)
        → (stages H ctx req x).1 ≡ none
        → RunsStored (stages H ctx req x).0
    stages-RunsStored ctx req x h =
        let (y, run) = stages_end H ctx req x h in
        subst (λ r. RunsStored r.0) (sym run)
          (save_running-RunsStored y (sym (ap (λ r. r.1) run) ∙ h))

    -- A provisioning that succeeds returns a sandbox that is running, without an error, and that is
    -- what the store gives for its id.
    pub provision_saves_running :
        (ctx : Context H.Machine) (sbx s : Sandbox) (req : CreateSandboxRequest) (w : World H)
        → (provision_sandbox_sync H ctx sbx req w).1 ≡ ok s
        → (s.phase ≡ SandboxPhase.running)
          × (s.error ≡ [])
          × (s.id ≡ sbx.id)
          × (load H sbx.id (provision_sandbox_sync H ctx sbx req w).0 ≡ ok s)
    provision_saves_running ctx sbx s req w h = elim (Option-cases (stages H ctx req (w, sbx)).1) [
      | inr (e, p) ↦ absurd (cc (h, provision-fails ctx sbx req e w p))
      | inl p ↦
          let run = provision-succeeds ctx sbx req w p in
          let end = (stages H ctx req (w, sbx)).0 in
          let (phase, error, stored) = stages-RunsStored ctx req (w, sbx) p in
          let same : end.1 ≡ s = ok-injective (sym (ap (λ r. r.1) run) ∙ h) in
          let id : end.1.id ≡ sbx.id = (stages-KeepsId H ctx req (w, sbx)).0 in
          (
            ap (λ t. t.phase) (sym same) ∙ phase,
            ap (λ t. t.error) (sym same) ∙ error,
            ap (λ t. t.id) (sym same) ∙ id,
            subst (λ r. load H sbx.id r.0 ≡ ok s) (sym run)
                (subst (λ i. load H i end.0 ≡ ok s) id (stored ∙ ap ok same)),
          )
    ]
