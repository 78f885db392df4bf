-- ===== src/Http/Laws.antt =====
-- The answers of the routes, alone and one after the other.
use go_firecracker_container.Base.{
  ◌≡◌, ◌≢◌, refl, true, none, [], inl, inr, nat_eq, list_eq, ℕ_discrete, arith,
}
use go_firecracker_container.Base.Text.{Text}
use go_firecracker_container.Model.{Error, ok, err, Result-cases, Sandbox, CreateSandboxRequest}
use go_firecracker_container.Machine.{Context, with_timeout}
use go_firecracker_container.Store
use go_firecracker_container.Sandbox.Config.{seconds}
use go_firecracker_container.Sandbox.World.{Host, World}
use go_firecracker_container.Sandbox.Provision.{load, acquire, refreshed}
use go_firecracker_container.Sandbox.Lifecycle.{get_sandbox, create_sandbox, delete_sandbox}
use go_firecracker_container.Sandbox.Lifecycle.Deletion.{delete_sandbox_forgets}
use go_firecracker_container.Sandbox.Lifecycle.Creation.{create_sandbox_stores}
use go_firecracker_container.Http.{
  one_sandbox, respond_json, respond_error, respond_error_message, with_id, answer_created,
  answer_found, post_sandbox, show_sandbox, remove_sandbox,
}

module _ (H : Host) (ip : Text) where
  show_absent :
      (id : Text) (w : World H)
      → load H id w ≡ err Error.not_exist
      → (show_sandbox H ip id w).code ≡ 404
  unfolding show_sandbox get_sandbox answer_found respond_error_message ℕ_discrete
  show_absent id w h = rw (h, get_sandbox) refl

  show_stored :
      (id : Text) (sbx : Sandbox) (w : World H)
      → load H id w ≡ ok sbx
      → ((show_sandbox H ip id w).code ≡ 200)
        × ((show_sandbox H ip id w).payload ≡ one_sandbox (refreshed H w sbx))
  unfolding show_sandbox get_sandbox answer_found respond_json
  show_stored id sbx w h = rw (h, get_sandbox) (refl, refl)

  module _ (L : Store.IsLawful H.files) (K : Store.IsFaithful H.codec) where
    -- If the store's removals are accepted and its path is not empty, then after the route that deletes
    -- a stored sandbox whose lock is free, the route that shows it answers 404, even if the deletion
    -- answered an error.
    pub delete_then_show :
        ((b id : Text) (s : H.files.State) → (Store.delete H.files H.codec b id s).1 ≡ none)
        → (id : Text) (sbx : Sandbox) (f : H.locks.Handle) (w : World H)
        → w.memory.cfg.state_base_dir ≢ []
        → (acquire H id w).1 ≡ ok f
        → load H id w ≡ ok sbx
        → sbx.id ≡ id
        → (show_sandbox H ip id (remove_sandbox H ip id w).0).code ≡ 404
    unfolding remove_sandbox
    delete_then_show removes id sbx f w based got stored same =
        show_absent id (delete_sandbox H id w).0
          (delete_sandbox_forgets H L K removes id sbx f w based got stored same).0

    -- A request for a new sandbox that is answered by 202 is followed by 200 at the route of its id.
    pub create_then_show :
        (ctx : Context H.Machine) (stamp : Text) (req : CreateSandboxRequest) (w : World H)
        → (post_sandbox H ip ctx stamp (ok req) w).1.code ≡ 202
        → (show_sandbox H ip (with_id stamp req).id (post_sandbox H ip ctx stamp (ok req) w).0).code
          ≡ 200
    unfolding post_sandbox answer_created respond_error respond_error_message respond_json
    create_then_show ctx stamp req w h =
        let op_ctx = with_timeout H.clock ctx (seconds 10) w.machine in
        elim (Result-cases (create_sandbox H op_ctx (with_id stamp req) true w).1) [
          | inr (e, p) ↦ absurd (ground (arith, h, p))
          | inl (s, p) ↦
              let (valid, absent, (stored, own, phase)) =
                create_sandbox_stores H L K op_ctx (with_id stamp req) true w s p in
              (show_stored (with_id stamp req).id s _ stored).0
        ]
