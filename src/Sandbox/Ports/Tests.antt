-- ===== src/Sandbox/Ports/Tests.antt =====
-- Two sandboxes that publish port 5353, by TCP and by UDP, and a third one that asks for it.
use go_firecracker_container.Base.{
  ◌≡◌, refl, ◌≢◌, true, false, none, some, List, [], ◌∷◌, All, contains, ◌==◌, nat_eq, list_eq,
  ℕ_discrete, arith, ==-self,
}
use go_firecracker_container.Base.Text.{Text, text, to_lower, trim_space}
use go_firecracker_container.Base.Integer.{pos, int_eq}
use go_firecracker_container.Base.Decimal.{format_int}
use go_firecracker_container.Base.Dict
use go_firecracker_container.Model.{PortMapping, Sandbox, SandboxPhase, message, ok}
use go_firecracker_container.Sandbox.Ports.{
  Reserved, Listen, port_key, normalize_proto, reserve_requested_ports, reserved_port_owner,
  ensure_host_ports_available, check_requested, use_ports, used_ports,
}
use go_firecracker_container.Sandbox.Ports.Reservations.{ensure-reserve_keeps_rivals}
use go_firecracker_container.Sandbox.Ports.Conflicts.{
  is_taken, ensure_host_ports_available_sound, ensure_host_ports_available_blind,
}

abbrev by_tcp : PortMapping
by_tcp = record { host_port = pos 5353; container_port = pos 53; protocol = text "TCP" }

abbrev by_udp : PortMapping
by_udp = record by_tcp { protocol = text "udp" }

abbrev stored : Text → List PortMapping → Sandbox
stored id ports = record {
  id = id;
  phase = SandboxPhase.running;
  error = [];
  namespace = [];
  ip = [];
  subnet_cidr = [];
  bridge_name = [];
  egress = false;
  ports = ports;
  containers = [];
  cni_conf_path = [];
  created_at = 0;
  updated_at = 0;
}

abbrev early : Sandbox
early = stored (text "a") (by_tcp ∷ [])

abbrev late : Sandbox
late = stored (text "b") (by_udp ∷ [])

abbrev free : Listen
free port proto = none

abbrev c : Text
c = text "c"

-- With one stored sandbox the conflict is seen; a failing trial `Listen` is, too.
runs_ports :
    (ensure_host_ports_available c (by_tcp ∷ []) (ok (early ∷ [])) [] free
      ≡ some (message (text "host port already in use: 5353/tcp (sandbox a)")))
    × (ensure_host_ports_available c (by_tcp ∷ []) (ok []) [] (λ port proto. some (text "busy"))
        ≡ some (message (text "host port already in use: 5353/tcp (busy)")))
    × (ensure_host_ports_available c (by_tcp ∷ []) (ok []) ((text "5353/tcp", text "d") ∷ []) free
        ≡ some (message (text "host port already reserved: 5353/tcp (sandbox d)")))
unfolding ensure_host_ports_available check_requested used_ports use_ports Dict.lookup Dict.insert
    normalize_proto to_lower trim_space list_eq ℕ_discrete int_eq format_int reserved_port_owner
    port_key
runs_ports = (refl, refl, refl)

differ : (x y : Text) → (x == y) ≡ false → x ≢ y
differ x y h e = ground (arith, h, e, ==-self y)

abbrev held : Reserved
held = (text "80/tcp", text "d") ∷ []

ensure-reserve_keeps_rivals_example :
    Dict.lookup (text "80/tcp") (reserve_requested_ports c (by_tcp ∷ []) held) ≡ some (text "d")
unfolding ensure_host_ports_available check_requested used_ports use_ports Dict.lookup Dict.insert
    normalize_proto to_lower trim_space list_eq ℕ_discrete int_eq format_int reserved_port_owner
    port_key
ensure-reserve_keeps_rivals_example =
    ensure-reserve_keeps_rivals c (by_tcp ∷ []) (ok (late ∷ [])) held free (text "80/tcp")
      (text "d") refl refl (differ (text "d") c refl)

ensure_host_ports_available_sound_example :
    All (λ p. is_taken c (late ∷ []) p.host_port (normalize_proto p.protocol) ≡ false) (by_tcp ∷ [])
unfolding ensure_host_ports_available check_requested used_ports use_ports Dict.lookup Dict.insert
    normalize_proto to_lower trim_space list_eq ℕ_discrete int_eq format_int reserved_port_owner
    port_key contains
ensure_host_ports_available_sound_example =
    ensure_host_ports_available_sound c (by_tcp ∷ []) (late ∷ []) [] free (refl, tt) refl

ensure_host_ports_available_blind_example :
    (is_taken c (early ∷ late ∷ []) (pos 5353) (normalize_proto (text "TCP")) ≡ true)
    × (ensure_host_ports_available c (by_tcp ∷ []) (ok (early ∷ late ∷ [])) [] free ≡ none)
unfolding normalize_proto to_lower trim_space list_eq ℕ_discrete reserved_port_owner Dict.lookup
ensure_host_ports_available_blind_example =
    ensure_host_ports_available_blind c early late by_tcp by_udp by_tcp [] free
      (differ (text "a") c refl) (differ (text "b") c refl) refl refl refl
      (differ (text "udp") (text "tcp") refl) refl refl refl refl
