-- ===== src/Sandbox/Vm.antt =====
-- The virtual machines of internal/sandbox/runtime.go: `createVM` and `stopVM`. The contexts of the
-- calls are left out: a call whose context has ended fails like any other.
use go_firecracker_container.Base.{
  ℕ, zero, suc, ◌*◌, Bool, not, ◌&&◌, ◌||◌, Option, none, some, ◌++◌, ltb, if◌then◌else◌,
}
use Prim.Native.String.{String}
use go_firecracker_container.Base.Text.{Text, text}
use go_firecracker_container.Base.Integer.{ℤ, to_int32}
use go_firecracker_container.Model.{Error, message}
use go_firecracker_container.Model.Actions.{Action, ◌>>◌}
use go_firecracker_container.Machine.{Clock, Vms, error_text, says, milliseconds}

-- What the loop makes of the error of an attempt.
pub data Verdict : Type 0 where
  exists fatal retry : Verdict

unfoldable pub verdict : Error → Verdict
verdict e =
    if says e (text "already exists")
    then exists
    else if not (says e (text "vsock")) && not (says e (text "dial unix firecracker.vsock"))
    then fatal
    else retry

abbrev pub vm_failed : String → Text → Error → Error
vm_failed what id e = message (text what ++ (id ++ (text ": " ++ error_text e)))

unfoldable pub is_gone : Error → Bool
is_gone e =
    says e (text "not found")
    || (says e (text "does not exist") || says e (text "forcefully terminated"))

module _ {S : Type 0} (C : Clock S) (V : Vms S) where
  -- The attempts that are left; `attempt` counts from 1, `last` is the error of the one before.
  unfoldable pub create_attempts : ℕ → ℕ → Text → ℤ → Error → Action S
  create_attempts zero attempt id count last s = (s, some (vm_failed "create vm " id last))
  create_attempts (suc left) attempt id count last s =
      let (t, r) = V.create id count s in
      elim r [
        | none ↦ (t, none)
        | some e ↦ elim (verdict e) [
          | exists ↦ (t, none)
          | fatal ↦ (t, some (vm_failed "create vm " id e))
          | retry ↦
              create_attempts left (suc attempt) id count e
                (C.sleep (milliseconds (150 * attempt)) (V.stop id t).0)
        ]
      ]

  unfoldable pub create_vm : Text → ℕ → Action S
  create_vm id container_count =
      let count = if ltb container_count 1 then 1 else container_count in
      V.connect >> create_attempts 4 1 id (to_int32 count) (message (text ""))

  unfoldable pub end_of_stop : Text → Option Error → Option Error
  end_of_stop id none = none
  end_of_stop id (some e) = if is_gone e then none else some (vm_failed "stop vm " id e)

  unfoldable pub stop_vm : Text → Action S
  stop_vm id = V.connect >> λ s. let (t, r) = V.stop id s in (t, end_of_stop id r)
