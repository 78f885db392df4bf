-- ===== src/Sandbox/Isolation.antt =====
-- An operation on one sandbox leaves the stored states of all others: what the service promises of
-- its store is a map from ids to sandboxes.
pub mod Operations
pub mod Refinement
mod Tests
use mathlib.Core.Path.{subst}
use go_firecracker_container.Base.{
  ◌≡◌, ◌≢◌, refl, sym, ◌∙◌, ap, ap₂, true, false, none, some, List, [], ◌∷◌, ◌==◌, nat_eq, list_eq,
  arith, if◌then◌else◌, Bool-cases, Option-cases, inl, inr, length,
}
use go_firecracker_container.Base.Text.{Text}
use go_firecracker_container.Base.Dict
use go_firecracker_container.Model.{
  Result, ok, err, Result-cases, Sandbox, CreateContainerRequest, CreateSandboxRequest,
}
use go_firecracker_container.Model.Actions.{◌>>◌}
use go_firecracker_container.Machine.{Context, with_timeout}
use go_firecracker_container.Store
use go_firecracker_container.Base.Paths.{IsPlain}
use go_firecracker_container.Store.Frame.{load-save_other, load-delete_other}
use go_firecracker_container.Sandbox.Config.{Config, Service, seconds}
use go_firecracker_container.Sandbox.Containers.{create_container}
use go_firecracker_container.Sandbox.Waits.{resolve_sandbox_ip, wait_published_tcp_ready}
use go_firecracker_container.Sandbox.World.{Host, World, on_machine}
use go_firecracker_container.Sandbox.Artifacts.{
  delete_sandbox_runtime_artifacts, delete_sandbox_from_state, apply_sandbox_network_policy,
  apply_host_port_publish,
}
use go_firecracker_container.Sandbox.Provision.{
  load, save, base_dir, Stage, create_containers, resolve_ip, wait_ready, save_running, stages,
  failed_state, roll_back, provision_sandbox_sync, plan_of,
}
use go_firecracker_container.Sandbox.Provision.Laws.{
  KeepsId, failed_state-id, seq-KeepsId, create_containers-KeepsId, resolve_ip-KeepsId,
  save_running-KeepsId, wait_ready-KeepsId, stages-KeepsId,
}
use go_firecracker_container.Sandbox.Provision.Outcome.{artifacts-keep}

module _ (H : Host) where
  -- The states of all sandboxes but one are as they were, for ids that name an entry of a directory.
  abbrev pub IsIsolated : Text → World H → World H → Type 0
  IsIsolated id w v =
      (base_dir H v ≡ base_dir H w) × ((j : Text) → IsPlain j → j ≢ id → load H j v ≡ load H j w)

  pub IsIsolated-trans :
      (id : Text) (w v u : World H) → IsIsolated id w v → IsIsolated id v u → IsIsolated id w u
  IsIsolated-trans id w v u a b = (b.0 ∙ a.0, λ j p d. b.1 j p d ∙ a.1 j p d)

  pub IsIsolated-same :
      (id : Text) (w v : World H) → v.files ≡ w.files → v.memory ≡ w.memory → IsIsolated id w v
  IsIsolated-same id w v files memory = (
    ap (λ (m : Service). m.cfg.state_base_dir) memory,
    λ j p d. ap₂ (λ m f. Store.load H.files H.codec m.cfg.state_base_dir j f) memory files,
  )

  module _ (L : Store.IsLawful H.files) where
    pub save-IsIsolated :
        (id : Text) (sbx : Sandbox) (w : World H)
        → sbx.id ≡ id
        → IsPlain id
        → IsIsolated id w (save H sbx w).0
    save-IsIsolated id sbx w same plain = (
      refl,
      λ j p d.
          load-save_other H.files H.codec L (base_dir H w) sbx j w.files
            (subst (λ i. IsPlain i) (sym same) plain) p (λ h. d (h ∙ same)),
    )

    pub delete_sandbox_from_state-IsIsolated :
        (id : Text) (sbx : Sandbox) (w : World H)
        → sbx.id ≡ id
        → IsPlain id
        → IsIsolated id w (delete_sandbox_from_state H sbx w).0
    unfolding delete_sandbox_from_state
    delete_sandbox_from_state-IsIsolated id sbx w same plain =
        let v = (delete_sandbox_runtime_artifacts H sbx w).0 in
        let (files, memory) = artifacts-keep H sbx w in
        let dir = w.memory.cfg.state_base_dir in
        (
          ap (λ (m : Service). m.cfg.state_base_dir) memory,
          λ j p d.
              ap
                (λ (m : Service).
                  Store.load H.files H.codec m.cfg.state_base_dir j
                    (Store.delete H.files H.codec dir sbx.id v.files).0)
                memory
              ∙ (load-delete_other H.files H.codec L dir sbx.id j v.files
                    (subst (λ i. IsPlain i) (sym same) plain) p (λ h. d (h ∙ same))
                  ∙ ap (Store.load H.files H.codec dir j) files),
        )

    -- A stage that touches the state of its own sandbox alone.
    abbrev Isolates : Stage H → Type 0
    Isolates a = (x : World H × Sandbox) → IsPlain x.1.id → IsIsolated x.1.id x.0 (a x).0.0

    seq-Isolates : (a b : Stage H) → KeepsId H a → Isolates a → Isolates b → Isolates (a >> b)
    unfolding ◌>>◌
    seq-Isolates a b keeps h k x plain = elim (Option-cases (a x).1) [
      | inr (e, p) ↦ rw (p, ◌>>◌) (h x plain)
      | inl p ↦
          rw (p, ◌>>◌)
            (IsIsolated-trans x.1.id x.0 (a x).0.0 (b (a x).0).0.0 (h x plain) (
              subst (λ i. IsIsolated i (a x).0.0 (b (a x).0).0.0) (keeps x).0
                (k (a x).0 (subst (λ i. IsPlain i) (sym (keeps x).0) plain))))
    ]

    save_running-Isolates : Isolates (save_running H)
    unfolding save_running
    save_running-Isolates x plain =
        let v = (on_machine H (wait_published_tcp_ready H.clock H.sockets x.1) x.0).0 in
        save-IsIsolated x.1.id (save_running H x).0.1 v (save_running-KeepsId H x).0 plain

    create_containers-same :
        (cs : List CreateContainerRequest) (x : World H × Sandbox)
        → ((create_containers H cs x).0.0.files ≡ x.0.files)
          × ((create_containers H cs x).0.0.memory ≡ x.0.memory)
    unfolding create_containers
    create_containers-same [] x = (refl, refl)
    create_containers-same (c ∷ cs) x =
        let (w, sbx) = x in
        let made =
          create_container H.clock H.containerd H.disk w.memory.cfg.namespace (plan_of sbx c)
            w.machine in
        elim (Result-cases made.1) [
          | inl (st, p) ↦
              rw (p, create_containers)
                (create_containers-same cs (
                  record w { machine = made.0 },
                  record sbx { containers = Dict.insert c.name st sbx.containers },
                ))
          | inr (e, p) ↦ rw (p, create_containers) (refl, refl)
        ]

    create_containers-Isolates :
        (cs : List CreateContainerRequest) → Isolates (create_containers H cs)
    create_containers-Isolates cs x plain =
        let (files, memory) = create_containers-same cs x in
        IsIsolated-same x.1.id x.0 (create_containers H cs x).0.0 files memory

    resolve_ip-Isolates : (ctx : Context H.Machine) → Isolates (resolve_ip H ctx)
    unfolding resolve_ip
    resolve_ip-Isolates ctx x plain =
        let (w, sbx) = x in
        let waited = with_timeout H.clock ctx (seconds 15) w.machine in
        elim (Result-cases (resolve_sandbox_ip H.clock H.disk H.cache waited sbx.id w.machine).1) [
          | inl (ip, p) ↦ rw (p, resolve_ip) (refl, λ j q d. refl)
          | inr (e, p) ↦ rw (p, resolve_ip) (refl, λ j q d. refl)
        ]

    stages-Isolates :
        (ctx : Context H.Machine) (req : CreateSandboxRequest) → Isolates (stages H ctx req)
    unfolding stages wait_ready apply_sandbox_network_policy apply_host_port_publish
    stages-Isolates ctx req =
        seq-Isolates _ _ (λ x. (refl, refl)) (λ x plain. (refl, λ j q d. refl))
          (seq-Isolates _ _ (create_containers-KeepsId H req.containers)
            (create_containers-Isolates req.containers)
            (seq-Isolates _ _ (resolve_ip-KeepsId H ctx) (resolve_ip-Isolates ctx) (
              seq-Isolates _ _ (λ x. (refl, refl)) (λ x plain. (refl, λ j q d. refl))
                (seq-Isolates _ _ (λ x. (refl, refl)) (λ x plain. (refl, λ j q d. refl))
                  (seq-Isolates _ _ (λ x. (refl, refl)) (λ x plain. (refl, λ j q d. refl))
                    save_running-Isolates)))))

    roll_back-Isolates :
        (x : World H × Sandbox) → IsPlain x.1.id → IsIsolated x.1.id x.0 (roll_back H x)
    unfolding roll_back
    roll_back-Isolates x plain =
        let failed = failed_state (H.clock.now x.0.machine) x.1 in
        let saved = (save H failed x.0).0 in
        let (files, memory) = artifacts-keep H failed saved in
        IsIsolated-trans x.1.id x.0 saved (roll_back H x)
          (save-IsIsolated x.1.id failed x.0 (failed_state-id _ x.1) plain)
          (IsIsolated-same x.1.id saved (roll_back H x) files memory)

    pub provision-IsIsolated :
        (ctx : Context H.Machine) (sbx : Sandbox) (req : CreateSandboxRequest) (w : World H)
        → IsPlain sbx.id
        → IsIsolated sbx.id w (provision_sandbox_sync H ctx sbx req w).0
    unfolding provision_sandbox_sync
    provision-IsIsolated ctx sbx req w plain =
        let end = (stages H ctx req (w, sbx)).0 in
        let ran = stages-Isolates ctx req (w, sbx) plain in
        elim (Option-cases (stages H ctx req (w, sbx)).1) [
          | inl p ↦ rw (p, provision_sandbox_sync) ran
          | inr (e, p) ↦
              rw (p, provision_sandbox_sync)
                (IsIsolated-trans sbx.id w end.0 (roll_back H end) ran (
                  subst (λ i. IsIsolated i end.0 (roll_back H end))
                    (stages-KeepsId H ctx req (w, sbx)).0
                    (roll_back-Isolates end
                      (subst (λ i. IsPlain i) (sym (stages-KeepsId H ctx req (w, sbx)).0) plain))))
        ]
