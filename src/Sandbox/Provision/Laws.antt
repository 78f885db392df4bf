-- ===== src/Sandbox/Provision/Laws.antt =====
-- What the stages of a provisioning keep, and how they end.
use go_firecracker_container.Base.{
  ℕ, ◌≡◌, ◌≢◌, refl, ◌∙◌, none, List, [], ◌∷◌, length, inl, inr, nat_eq, list_eq, arith,
  Option-cases,
}
use go_firecracker_container.Base.Text.{Text}
use go_firecracker_container.Model.{
  Result-cases, SandboxPhase, Sandbox, CreateContainerRequest, CreateSandboxRequest,
}
use go_firecracker_container.Model.Actions.{◌>>◌, seq_succeeds}
use go_firecracker_container.Machine.{Context, with_timeout}
use go_firecracker_container.Sandbox.Config.{seconds}
use go_firecracker_container.Sandbox.Phase.{
  Answer, Tally, set_sandbox_phase, refresh_sandbox_runtime_state, settle,
}
use go_firecracker_container.Sandbox.World.{Host, World, on_machine}
use go_firecracker_container.Sandbox.Artifacts.{
  apply_sandbox_network_policy, apply_host_port_publish,
}
use go_firecracker_container.Base.Dict
use go_firecracker_container.Sandbox.Containers.{create_container}
use go_firecracker_container.Sandbox.Waits.{wait_published_tcp_ready, resolve_sandbox_ip}
use go_firecracker_container.Sandbox.Vm.{create_vm}
use go_firecracker_container.Sandbox.Provision.{
  plan_of, answer_of, now, Stage, stage, create_containers, resolve_ip, wait_ready, save_running,
  stages, failed_state,
}

pub failed_state-phase :
    (now : ℕ) (sbx : Sandbox) → (failed_state now sbx).phase ≡ SandboxPhase.error
unfolding failed_state set_sandbox_phase
failed_state-phase now sbx = ground arith

pub failed_state-error : (now : ℕ) (sbx : Sandbox) → (failed_state now sbx).error ≢ []
unfolding failed_state set_sandbox_phase
failed_state-error now sbx = ground arith

pub failed_state-id : (now : ℕ) (sbx : Sandbox) → (failed_state now sbx).id ≡ sbx.id
unfolding failed_state set_sandbox_phase
failed_state-id now sbx = ground arith

settle-id : (t : Tally) (sbx : Sandbox) → (settle t sbx).id ≡ sbx.id
unfolding settle
settle-id t sbx = ground arith

refresh-id :
    (probe : Text → Answer) (now : ℕ) (sbx : Sandbox)
    → (refresh_sandbox_runtime_state probe now sbx).id ≡ sbx.id
unfolding refresh_sandbox_runtime_state
refresh-id probe now sbx = grind (arith, settle-id)

module _ (H : Host) where
  -- A stage that touches neither the id nor the memory.
  abbrev pub KeepsId : Stage H → Type 0
  KeepsId a = (x : World H × Sandbox) → ((a x).0.1.id ≡ x.1.id) × ((a x).0.0.memory ≡ x.0.memory)

  pub seq-KeepsId : (a b : Stage H) → KeepsId a → KeepsId b → KeepsId (a >> b)
  unfolding ◌>>◌
  seq-KeepsId a b h k x = elim (Option-cases (a x).1) [
    | inl p ↦ rw (p, ◌>>◌) ((k (a x).0).0 ∙ (h x).0, (k (a x).0).1 ∙ (h x).1)
    | inr (e, p) ↦ rw (p, ◌>>◌) (h x)
  ]

  pub create_containers-KeepsId :
      (cs : List CreateContainerRequest) → KeepsId (create_containers H cs)
  unfolding create_containers
  create_containers-KeepsId [] x = (refl, refl)
  create_containers-KeepsId (c ∷ cs) x =
      let (w, sbx) = x in
      let made =
        create_container H.clock H.containerd H.disk w.memory.cfg.namespace (plan_of sbx c)
          w.machine in
      elim (Result-cases made.1) [
        | inl (st, p) ↦
            rw (p, create_containers)
              (create_containers-KeepsId cs (
                record w { machine = made.0 },
                record sbx { containers = Dict.insert c.name st sbx.containers },
              ))
        | inr (e, p) ↦ rw (p, create_containers) (refl, refl)
      ]

  pub save_running-KeepsId : KeepsId (save_running H)
  unfolding save_running set_sandbox_phase
  save_running-KeepsId x = (
    refresh-id (answer_of H (wait_published_tcp_ready H.clock H.sockets x.1 x.0.machine).0) _ x.1,
    refl,
  )

  pub resolve_ip-KeepsId : (ctx : Context H.Machine) → KeepsId (resolve_ip H ctx)
  unfolding resolve_ip
  resolve_ip-KeepsId ctx x =
      let (w, sbx) = x in
      let waited = with_timeout H.clock ctx (seconds 15) w.machine in
      elim (Result-cases (resolve_sandbox_ip H.clock H.disk H.cache waited sbx.id w.machine).1) [
        | inl (ip, p) ↦ rw (p, resolve_ip) (refl, refl)
        | inr (e, p) ↦ rw (p, resolve_ip) (refl, refl)
      ]

  pub wait_ready-KeepsId : (ctx : Context H.Machine) → KeepsId (wait_ready H ctx)
  unfolding wait_ready
  wait_ready-KeepsId ctx x = (refl, refl)

  pub stages-KeepsId :
      (ctx : Context H.Machine) (req : CreateSandboxRequest) → KeepsId (stages H ctx req)
  unfolding stages apply_sandbox_network_policy apply_host_port_publish
  stages-KeepsId ctx req =
      seq-KeepsId _ _ (λ x. (refl, refl))
        (seq-KeepsId _ _ (create_containers-KeepsId req.containers) (
          seq-KeepsId _ _ (resolve_ip-KeepsId ctx) (
            seq-KeepsId _ _ (λ x. (refl, refl))
              (seq-KeepsId _ _ (wait_ready-KeepsId ctx)
                (seq-KeepsId _ _ (λ x. (refl, refl)) save_running-KeepsId)))))

  -- A provisioning that succeeds ends by saving the running sandbox.
  pub stages_end :
      (ctx : Context H.Machine) (req : CreateSandboxRequest) (x : World H × Sandbox)
      → (stages H ctx req x).1 ≡ none
      → (y : World H × Sandbox) × (stages H ctx req x ≡ save_running H y)
  unfolding stages
  stages_end ctx req x h =
      let (h1, g1, r1) =
        seq_succeeds
          (stage H (λ sbx. on_machine H (create_vm H.clock H.vms sbx.id (length req.containers)))) _
          x h in
      let (h2, g2, r2) = seq_succeeds (create_containers H req.containers) _ _ g1 in
      let (h3, g3, r3) = seq_succeeds (resolve_ip H ctx) _ _ g2 in
      let (h4, g4, r4) = seq_succeeds (stage H (apply_sandbox_network_policy H)) _ _ g3 in
      let (h5, g5, r5) = seq_succeeds (wait_ready H ctx) _ _ g4 in
      let (h6, g6, r6) = seq_succeeds (stage H (apply_host_port_publish H)) _ _ g5 in
      (_, r1 ∙ r2 ∙ r3 ∙ r4 ∙ r5 ∙ r6)
