-- ===== src/Sandbox/Locks.antt =====
-- The locks of internal/sandbox/runtime.go: `acquireSandboxLock` and `isSandboxLockHeld`, over file
-- locks and the clock.
pub mod Laws
use go_firecracker_container.Base.{
  ℕ, zero, suc, ◌+◌, ◌*◌, Bool, true, false, none, some, [], ◌∷◌, ◌++◌, ltb, if◌then◌else◌,
}
use go_firecracker_container.Base.Text.{Text, text}
use go_firecracker_container.Base.Paths.{join_path}
use go_firecracker_container.Model.{Error, message, Result, ok, err}
use go_firecracker_container.Model.Actions.{Action, ◌>>◌, ignore}
use go_firecracker_container.Machine.{
  Call, Clock, Locks, Flock, locked, would_block, refused, milliseconds,
}
use go_firecracker_container.Sandbox.Config.{seconds}

abbrev pub lock_path : Text → Text → Text
lock_path lock_dir id = join_path (lock_dir ∷ (id ++ text ".lock") ∷ [])

abbrev pub lock_timeout : Text → Error
lock_timeout id = message (text "lock timeout: " ++ id)

module _ {S : Type 0} (C : Clock S) (U : Locks S) (lock_dir : Text) where
  -- A round: `deadline < now` is `time.Now().After(deadline)`. Without fuel it ends as at the
  -- deadline.
  unfoldable pub lock_rounds : ℕ → Text → ℕ → U.Handle → Call S U.Handle
  lock_rounds zero id deadline f s = ((U.close f s).0, err (lock_timeout id))
  lock_rounds (suc fuel) id deadline f s =
      let (t, r) = U.try_lock f s in
      let again : S × Result U.Handle =
        lock_rounds fuel id deadline f (C.sleep (milliseconds 120) t) in
      elim r [
        | locked ↦ (t, ok f)
        | refused e ↦ ((U.close f t).0, err e)
        | would_block ↦
            if ltb deadline (C.now t) then ((U.close f t).0, err (lock_timeout id)) else again
      ]

  -- The fuel is one more than the periods that fit before the deadline.
  unfoldable pub acquire_sandbox_lock : Text → Call S U.Handle
  acquire_sandbox_lock id s =
      let (t, r) = U.open_file (lock_path lock_dir id) s in
      elim r [ err e ↦ (t, err e) | ok f ↦ lock_rounds 168 id (C.now t + seconds 20) f t ]

  -- The function that `acquireSandboxLock` returns.
  unfoldable pub release_lock : U.Handle → S → S
  release_lock f s = (U.close f (U.unlock f s).0).0

  unfoldable pub probe_lock : U.Handle → S → S × Bool
  probe_lock f s =
      let (t, r) = U.try_lock f s in
      elim r [
        | locked ↦ ((U.close f (U.unlock f t).0).0, false)
        | would_block ↦ ((U.close f t).0, true)
        | refused e ↦ ((U.close f t).0, false)
      ]

  unfoldable pub is_sandbox_lock_held : Text → S → S × Bool
  is_sandbox_lock_held id s =
      let (t, r) = U.open_file (lock_path lock_dir id) s in
      elim r [ err e ↦ (t, false) | ok f ↦ probe_lock f t ]
