-- ===== src/Sandbox/Reconcile/Laws.antt =====
-- What a reconciliation keeps and what it deletes.
use mathlib.Core.Path.{subst}
use go_firecracker_container.Base.{◌≡◌, sym, false, none, List, nat_eq, list_eq, arith}
use go_firecracker_container.Base.Text.{Text, text}
use go_firecracker_container.Model.{ok, SandboxPhase, Sandbox}
use go_firecracker_container.Store
use go_firecracker_container.Sandbox.Phase.{set_sandbox_phase}
use go_firecracker_container.Sandbox.World.{Host, World}
use go_firecracker_container.Sandbox.Provision.{load, now, save}
use go_firecracker_container.Sandbox.Provision.Outcome.{load_saved}
use go_firecracker_container.Sandbox.Reconcile.{
  is_provisioning, is_locked, time_out, reconcile_unlocked, reconcile_stored,
}

module _ (H : Host) where
  stored-time_out :
      (runtime_ids : List Text) (sbx : Sandbox) (w : World H)
      → (is_locked H sbx.id w).1 ≡ false
      → sbx.phase ≡ SandboxPhase.creating
      → is_provisioning (now H (is_locked H sbx.id w).0) sbx ≡ false
      → reconcile_stored H runtime_ids sbx w ≡ time_out H sbx (is_locked H sbx.id w).0
  unfolding reconcile_stored reconcile_unlocked
  stored-time_out runtime_ids sbx w free phase old = ground (arith, free, phase, old)

  -- A sandbox that has been "creating" for two minutes or more and whose lock is free is stored as
  -- failed with the message "provisioning timeout", if that is saved without an error.
  pub reconcile_times_out :
      Store.IsLawful H.files
      → Store.IsFaithful H.codec
      → (runtime_ids : List Text) (sbx : Sandbox) (w : World H) → (is_locked H sbx.id w).1 ≡ false
      → sbx.phase ≡ SandboxPhase.creating
      → is_provisioning (now H (is_locked H sbx.id w).0) sbx ≡ false
      → (save H
          (set_sandbox_phase
            (now H (is_locked H sbx.id w).0)
            SandboxPhase.error
            (text "provisioning timeout")
            sbx)
          (is_locked H sbx.id w).0).1
        ≡ none
      → load H sbx.id (reconcile_stored H runtime_ids sbx w)
        ≡ ok (
            set_sandbox_phase
              (now H (is_locked H sbx.id w).0)
              SandboxPhase.error
              (text "provisioning timeout")
              sbx)
  unfolding time_out set_sandbox_phase
  reconcile_times_out L K runtime_ids sbx w free phase old saved =
      let v = (is_locked H sbx.id w).0 in
      let late = set_sandbox_phase (now H v) SandboxPhase.error (text "provisioning timeout") sbx in
      subst (λ u. load H sbx.id u ≡ ok late)
        (sym (stored-time_out runtime_ids sbx w free phase old)) (load_saved H L K late v saved)
