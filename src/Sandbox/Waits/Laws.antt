-- ===== src/Sandbox/Waits/Laws.antt =====
-- The loops that wait end by a result or by their deadline, not by their fuel.
use go_firecracker_container.Base.{
  ℕ, ◌+◌, ◌≤◌, ◌≡◌, refl, ap, Option, none, List, [], ◌∷◌, ◌++◌, inl, inr, arith, Option-cases,
  Bool-cases, ◌==◌, nat_eq, list_eq,
}
use go_firecracker_container.Base.Text.{Text, text}
use go_firecracker_container.Base.Decimal.{format_int}
use go_firecracker_container.Model.{Error, Result-cases, PortMapping, Sandbox}
use go_firecracker_container.Machine.{Clock, Sleeps, Containerd, Disk, Sockets}
use go_firecracker_container.Machine.Polling.{poll, poll_enough}
use go_firecracker_container.Network.Cni.{CacheFormat, lookup_fcnet_ipv4}
use go_firecracker_container.Sandbox.Config.{seconds}
use go_firecracker_container.Sandbox.Ports.{normalize_proto}
use go_firecracker_container.Sandbox.Waits.{
  quarter_period, try_ip, end_of_ip, resolve_sandbox_ip, try_ready, end_of_ready,
  wait_sandbox_ready, dial_ports, try_ports, end_of_ports, wait_published_tcp_ready,
  all_containers_run,
}

module _ {S : Type 0} (C : Clock S) (L : Sleeps C) where
  module _ (K : Disk S) (F : CacheFormat) (cancelled : S → Option Error) where
    try_ip-same :
        (id : Text) (last : Option Error) (s : S) → (try_ip C K F cancelled id last s).0 ≡ s
    unfolding try_ip
    try_ip-same id last s = elim (Option-cases (cancelled s)) [
      | inr (e, p) ↦ rw (p, try_ip) refl
      | inl p ↦ elim (Result-cases (lookup_fcnet_ipv4 F (λ path. K.read_file path s) id)) [
        | inl (ip, q) ↦ rw (p, q, try_ip) refl
        | inr (e, q) ↦ rw (p, q, try_ip) refl
      ]
    ]

    resolve_ends :
        (id : Text) (s : S) (fuel : ℕ)
        → 80 ≤ fuel
        → end_of_ip C K F cancelled
            (poll C (C.now s + seconds 12) quarter_period (try_ip C K F cancelled id) fuel none s)
          ≡ resolve_sandbox_ip C K F cancelled id s
    unfolding resolve_sandbox_ip
    resolve_ends id s fuel h = ap (end_of_ip C K F cancelled) (
        poll_enough C (C.now s + seconds 12) quarter_period (try_ip C K F cancelled id) L
          (λ a t. omega (arith, ap C.now (try_ip-same id a t))) 80 fuel none s (omega arith) h)

  module _ (D : Containerd S) (cancelled : S → Option Error) where
    try_ready-same :
        (sbx : Sandbox) (u : Unit {0}) (s : S) → (try_ready C D cancelled sbx u s).0 ≡ s
    unfolding try_ready
    try_ready-same sbx u s = elim (Option-cases (cancelled s)) [
      | inr (e, p) ↦ rw (p, try_ready) refl
      | inl p ↦ elim (Bool-cases (all_containers_run C D sbx.containers s)) [
        | inl q ↦ rw (p, q, try_ready) refl
        | inr q ↦ rw (p, q, try_ready) refl
      ]
    ]

    ready_ends :
        (sbx : Sandbox) (s : S) (fuel : ℕ)
        → 134 ≤ fuel
        → end_of_ready C D cancelled sbx.id
            (poll C (C.now s + seconds 20) quarter_period (try_ready C D cancelled sbx) fuel tt s)
          ≡ wait_sandbox_ready C D cancelled sbx s
    unfolding wait_sandbox_ready
    ready_ends sbx s fuel h = ap (end_of_ready C D cancelled sbx.id) (
        poll_enough C (C.now s + seconds 20) quarter_period (try_ready C D cancelled sbx) L
          (λ a t. omega (arith, ap C.now (try_ready-same sbx a t))) 134 fuel tt s (omega arith) h)

  module _ (N : Sockets S) (dials : (a : Text) (s : S) → C.now s ≤ C.now (N.dial_tcp a s).0) where
    dial_ports-time :
        (ip : Text) (ps : List PortMapping) (s : S) → C.now s ≤ C.now (dial_ports C N ip ps s).0
    unfolding dial_ports
    dial_ports-time ip [] s = omega arith
    dial_ports-time ip (p ∷ ps) s =
        let (t, r) = N.dial_tcp (ip ++ b':' ∷ format_int p.container_port) s in
        elim (Bool-cases (normalize_proto p.protocol == text "tcp")) [
          | inr q ↦ rw (q, dial_ports) (dial_ports-time ip ps s)
          | inl q ↦ elim (Option-cases r) [
            | inr (e, d) ↦ rw (q, d, dial_ports) (dials _ s)
            | inl d ↦
                rw (q, d, dial_ports)
                  (omega (
                    arith,
                    dials (ip ++ b':' ∷ format_int p.container_port) s,
                    dial_ports-time ip ps t,
                  ))
          ]
        ]

    try_ports-time : (sbx : Sandbox) (n : ℕ) (s : S) → C.now s ≤ C.now (try_ports C N sbx n s).0
    unfolding try_ports
    try_ports-time sbx n s = ground (arith, dial_ports-time sbx.ip sbx.ports s)

    ports_end :
        (sbx : Sandbox) (s : S) (fuel : ℕ)
        → 67 ≤ fuel
        → end_of_ports C N sbx.id
            (poll C (C.now s + seconds 10) quarter_period (try_ports C N sbx) fuel 0 s)
          ≡ wait_published_tcp_ready C N sbx s
    unfolding wait_published_tcp_ready
    ports_end sbx s fuel h = ap (end_of_ports C N sbx.id) (
        poll_enough C (C.now s + seconds 10) quarter_period (try_ports C N sbx) L
          (try_ports-time sbx) 67 fuel 0 s (omega arith) h)

-- If a sleep takes as long as it is told and a dial takes no negative time, then the waits for the
-- address, for the containers and for the ports of a sandbox end by a result or by their deadline,
-- never by their fuel: with any fuel from 134 on they give the same.
pub waits_end :
    {S : Type 0} (C : Clock S) (K : Disk S) (D : Containerd S) (N : Sockets S) (F : CacheFormat)
    (cancelled : S → Option Error)
    → Sleeps C
    → ((a : Text) (s : S) → C.now s ≤ C.now (N.dial_tcp a s).0)
    → (sbx : Sandbox) (s : S) (fuel : ℕ) → 134 ≤ fuel
    → (end_of_ip C K F cancelled
          (poll C (C.now s + seconds 12) quarter_period (try_ip C K F cancelled sbx.id) fuel none s)
        ≡ resolve_sandbox_ip C K F cancelled sbx.id s)
      × (end_of_ready C D cancelled sbx.id
            (poll C (C.now s + seconds 20) quarter_period (try_ready C D cancelled sbx) fuel tt s)
          ≡ wait_sandbox_ready C D cancelled sbx s)
      × (end_of_ports C N sbx.id
            (poll C (C.now s + seconds 10) quarter_period (try_ports C N sbx) fuel 0 s)
          ≡ wait_published_tcp_ready C N sbx s)
waits_end C K D N F cancelled L dials sbx s fuel h = (
  resolve_ends C L K F cancelled sbx.id s fuel (omega arith),
  ready_ends C L D cancelled sbx s fuel h,
  ports_end C L N dials sbx s fuel (omega arith),
)
