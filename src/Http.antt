-- ===== src/Http.antt =====
-- internal/http: the handlers of the routes and their answers. gin, the JSON of a body and the lookup
-- of the external address are arguments. The deadlines of the contexts are those of the calls.
pub mod Laws
mod Tests
use go_firecracker_container.Base.{
  ℕ, Bool, true, false, Option, none, some, List, [], ◌++◌, ◌==◌, nat_eq, list_eq, if◌then◌else◌,
}
use go_firecracker_container.Base.Text.{Text, text}
use go_firecracker_container.Model.{Error, message, Result, ok, err, Sandbox, CreateSandboxRequest}
use go_firecracker_container.Machine.{Context, error_text, with_timeout}
use go_firecracker_container.Sandbox.Config.{seconds}
use go_firecracker_container.Sandbox.World.{Host, World}
use go_firecracker_container.Sandbox.Lifecycle.{
  create_sandbox, delete_sandbox, list_sandboxes, get_sandbox,
}
use go_firecracker_container.Sandbox.Reconcile.{reconcile_once}

-- The payload of an answer.
pub data Payload : Type 0 where
  healthy reconciled : Payload
  one_sandbox : Sandbox → Payload
  items : List Sandbox → Payload
  deleted : Text → Payload
  failure : Text → Payload

pub record Response : Type 0 where
  pub code : ℕ
  pub payload : Payload
  -- The field `external_ip`, if there is one.
  pub external_ip : Option Text

unfoldable pub respond_json : ℕ → Payload → Text → Response
respond_json code payload external_ip = record {
  code = code;
  payload = payload;
  external_ip = if external_ip == [] then none else some external_ip;
}

unfoldable pub respond_error_message : ℕ → Text → Response
respond_error_message code msg = record {
  code = if code == 0 then 500 else code;
  payload = failure msg;
  external_ip = none;
}

unfoldable pub respond_error : ℕ → Error → Response
respond_error code e = respond_error_message code (error_text e)

unfoldable pub healthz : Response
healthz = record { code = 200; payload = healthy; external_ip = none }

-- `stamp` is the time as text, for an id that is not given.
unfoldable pub with_id : Text → CreateSandboxRequest → CreateSandboxRequest
with_id stamp req = if req.id == [] then record req { id = text "sbx-" ++ stamp } else req

unfoldable pub answer_created : Text → Result Sandbox → Response
answer_created ip (err e) = respond_error 400 e
answer_created ip (ok sbx) = respond_json 202 (one_sandbox sbx) ip

unfoldable pub answer_found : Text → Result Sandbox → Response
answer_found ip (err Error.not_exist) = respond_error_message 404 (text "not found")
answer_found ip (err (message m)) = respond_error 500 (message m)
answer_found ip (ok sbx) = respond_json 200 (one_sandbox sbx) ip

unfoldable pub answer_listed : Text → Result (List Sandbox) → Response
answer_listed ip (err e) = respond_error 500 e
answer_listed ip (ok all) = respond_json 200 (items all) ip

unfoldable pub answer_done : Text → Payload → Option Error → Response
answer_done ip payload none = respond_json 200 payload ip
answer_done ip payload (some e) = respond_error 500 e

module _ (H : Host) (ip : Text) where
  -- `bound` is what `ShouldBindJSON` gives, `ctx` the context of the request.
  unfoldable pub post_sandbox :
      Context H.Machine → Text → Result CreateSandboxRequest → World H → World H × Response
  post_sandbox ctx stamp (err e) w = (w, respond_error 400 e)
  post_sandbox ctx stamp (ok req) w =
      let op_ctx = with_timeout H.clock ctx (seconds 10) w.machine in
      let (v, r) = create_sandbox H op_ctx (with_id stamp req) true w in (v, answer_created ip r)

  unfoldable pub show_sandbox : Text → World H → Response
  show_sandbox id w = answer_found ip (get_sandbox H id w)

  unfoldable pub show_sandboxes : World H → Response
  show_sandboxes w = answer_listed ip (list_sandboxes H w)

  unfoldable pub remove_sandbox : Text → World H → World H × Response
  remove_sandbox id w = let (v, e) = delete_sandbox H id w in (v, answer_done ip (deleted id) e)

  unfoldable pub post_reconcile : World H → World H × Response
  post_reconcile w = let (v, e) = reconcile_once H w in (v, answer_done ip reconciled e)
