-- ===== src/Sandbox/Waits.antt =====
-- The loops that wait for a sandbox: `resolveSandboxIP` of internal/sandbox/runtime.go,
-- `waitSandboxReady` and `waitPublishedTCPReady` of internal/sandbox/lifecycle.go, with
-- `ensureLocalPortFree`. `cancelled` is `ctx.Err()`. The fuel of each loop is the number of its
-- periods before its deadline.
pub mod Laws
use go_firecracker_container.Base.{
  ℕ, suc, ◌+◌, ◌*◌, Bool, true, false, not, Option, none, some, List, [], ◌∷◌, ◌++◌, all, ◌⊎◌, inl,
  inr, ltb, ◌==◌, nat_eq, list_eq, if◌then◌else◌,
}
use Prim.Native.String.{String}
use go_firecracker_container.Base.Text.{Text, text}
use go_firecracker_container.Base.Integer.{ℤ}
use go_firecracker_container.Base.Decimal.{format_int}
use go_firecracker_container.Base.Dict.{Dict}
use go_firecracker_container.Model.{
  Error, message, Result, ok, err, PortMapping, Sandbox, ContainerState,
}
use go_firecracker_container.Model.Actions.{Action}
use go_firecracker_container.Machine.{
  Call, Clock, Containerd, Disk, Sockets, TaskStatus, error_text, milliseconds,
}
use go_firecracker_container.Machine.Polling.{poll}
use go_firecracker_container.Network.Cni.{CacheFormat, lookup_fcnet_ipv4}
use go_firecracker_container.Sandbox.Config.{seconds}
use go_firecracker_container.Sandbox.Ports.{normalize_proto}

abbrev pub quarter_period : ℕ
quarter_period = milliseconds 150

unfoldable pub last_error : Option Error → Error
last_error none = message (text "timeout resolving sandbox ip")
last_error (some e) = e

abbrev pub told : String → Text → String → Text
told before id after = text before ++ (id ++ text after)

module _ {S : Type 0} (C : Clock S) where
  module _ (K : Disk S) (F : CacheFormat) (cancelled : S → Option Error) where
    -- A round of `resolveSandboxIP`; the variable is the last error.
    unfoldable pub try_ip : Text → Option Error → S → S × (Result Text ⊎ Option Error)
    try_ip id last s = elim (cancelled s) [
      | some e ↦ (s, inl (err (message (text "resolve sandbox ip canceled: " ++ error_text e))))
      | none ↦ elim (lookup_fcnet_ipv4 F (λ path. K.read_file path s) id) [
        | ok ip ↦ (s, inl (ok ip))
        | err e ↦ (s, inr (some e))
      ]
    ]

    unfoldable pub end_of_ip : S × (Result Text ⊎ Option Error) → S × Result Text
    end_of_ip (s, inl r) = (s, r)
    end_of_ip (s, inr last) = (s, err (last_error last))

    unfoldable pub resolve_sandbox_ip : Text → Call S Text
    resolve_sandbox_ip id s =
        end_of_ip (poll C (C.now s + seconds 12) quarter_period (try_ip id) 80 none s)

  module _ (D : Containerd S) where
    unfoldable pub has_running_task : D.Container → S → Bool
    has_running_task ctr s = elim (D.find_task ctr s) [
      | err e ↦ false
      | ok task ↦ elim (D.status task s) [ err e ↦ false | ok st ↦ st.status == text "running" ]
    ]

    -- `isContainerRunning`, and the body of the loop of `waitSandboxReady`.
    unfoldable pub is_container_running : Text → S → Bool
    is_container_running id s = elim (D.load_container id s) [
      | err e ↦ false
      | ok ctr ↦ has_running_task ctr s
    ]

    unfoldable pub all_containers_run : Dict Text ContainerState → S → Bool
    all_containers_run m s = all (λ (name, st). is_container_running st.id s) m

    module _ (cancelled : S → Option Error) where
      unfoldable pub try_ready : Sandbox → Unit {0} → S → S × (Option Error ⊎ Unit {0})
      try_ready sbx u s = elim (cancelled s) [
        | some e ↦ (
          s,
          inl (some (message (told "sandbox " sbx.id " readiness canceled: " ++ error_text e))),
        )
        | none ↦ if all_containers_run sbx.containers s then (s, inl none) else (s, inr tt)
      ]

      unfoldable pub end_of_ready : Text → S × (Option Error ⊎ Unit {0}) → S × Option Error
      end_of_ready id (s, inl r) = (s, r)
      end_of_ready id (s, inr u) =
          (s, some (message (told "sandbox " id " did not become ready before timeout")))

      unfoldable pub wait_sandbox_ready : Sandbox → Action S
      wait_sandbox_ready sbx s =
          end_of_ready sbx.id
            (poll C (C.now s + seconds 20) quarter_period (try_ready sbx) 134 tt s)

  module _ (N : Sockets S) where
    -- The loop over the ports: only TCP ports are dialled, up to the first that fails.
    unfoldable pub dial_ports : Text → List PortMapping → S → S × Bool
    dial_ports ip [] s = (s, true)
    dial_ports ip (p ∷ ps) s =
        let (t, r) = N.dial_tcp (ip ++ b':' ∷ format_int p.container_port) s in
        let next : S × Bool = dial_ports ip ps t in
        let skipped : S × Bool = dial_ports ip ps s in
        if not (normalize_proto p.protocol == text "tcp")
        then skipped
        else elim r [ some e ↦ (t, false) | none ↦ next ]

    -- A round of `waitPublishedTCPReady`; the variable counts the good rounds in a row.
    unfoldable pub try_ports : Sandbox → ℕ → S → S × (Unit {0} ⊎ ℕ)
    try_ports sbx consecutive s =
        let (t, ready) = dial_ports sbx.ip sbx.ports s in
        if ready
        then if ltb (consecutive + 1) 4 then (t, inr (consecutive + 1)) else (t, inl tt)
        else (t, inr 0)

    unfoldable pub end_of_ports : Text → S × (Unit {0} ⊎ ℕ) → S × Option Error
    end_of_ports id (s, inl u) = (s, none)
    end_of_ports id (s, inr n) =
        (s, some (message (told "sandbox " id " tcp ports not ready before timeout")))

    unfoldable pub wait_published_tcp_ready : Sandbox → Action S
    wait_published_tcp_ready sbx s =
        end_of_ports sbx.id (poll C (C.now s + seconds 10) quarter_period (try_ports sbx) 67 0 s)

    unfoldable pub ensure_local_port_free : ℤ → Text → S → Option Error
    ensure_local_port_free port proto s =
        let addr = text "0.0.0.0:" ++ format_int port in
        if proto == text "udp"
        then N.listen_error (text "udp") addr s
        else N.listen_error (text "tcp") addr s
