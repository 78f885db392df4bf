-- ===== src/Sandbox/Ports.antt =====
-- The host ports of internal/sandbox/lifecycle.go: the check of a request against the stored
-- sandboxes and the reservations, and the reservations themselves. The store's answer and the
-- outcome of a trial `net.Listen` are arguments. Each function is the body under `portMu`.
pub mod Keys
pub mod Reservations
pub mod Conflicts
mod Tests
use go_firecracker_container.Base.{
  Bool, true, false, not, ◌&&◌, Option, none, some, List, [], ◌∷◌, ◌++◌, ◌==◌, nat_eq, list_eq,
  if◌then◌else◌,
}
use go_firecracker_container.Base.Text.{Text, text, to_lower, trim_space}
use go_firecracker_container.Base.Integer.{ℤ, int_eq}
use go_firecracker_container.Base.Decimal.{format_int}
use go_firecracker_container.Base.Dict
use go_firecracker_container.Base.Dict.{Dict}
use go_firecracker_container.Model.{PortMapping, Sandbox, Error, message, Result, ok, err}

unfoldable pub normalize_proto : Text → Text
normalize_proto proto = let p = to_lower (trim_space proto) in if p == [] then text "tcp" else p

unfoldable pub port_key : ℤ → Text → Text
port_key port proto = format_int port ++ b'/' ∷ normalize_proto proto

-- `reservedPorts`: the owner of each reserved port.
abbrev pub Reserved : Type 0
Reserved = Dict Text Text

unfoldable pub reserved_port_owner : Reserved → ℤ → Text → Option Text
reserved_port_owner reserved port proto = Dict.lookup (port_key port proto) reserved

abbrev pub key_of : PortMapping → Text
key_of p = port_key p.host_port (normalize_proto p.protocol)

-- The keys that a request reserves, which its release function remembers.
unfoldable pub requested_keys : List PortMapping → List Text
requested_keys [] = []
requested_keys (p ∷ ps) = key_of p ∷ requested_keys ps

unfoldable pub reserve_requested_ports : Text → List PortMapping → Reserved → Reserved
reserve_requested_ports id [] reserved = reserved
reserve_requested_ports id (p ∷ ps) reserved =
    reserve_requested_ports id ps (Dict.insert (key_of p) id reserved)

-- `s.reservedPorts[k] == sandboxID`; a missing key reads as "".
abbrev pub is_owner : Text → Option Text → Bool
is_owner id none = [] == id
is_owner id (some owner) = owner == id

-- The function that `reserveRequestedPorts` returns.
unfoldable pub release_keys : Text → List Text → Reserved → Reserved
release_keys id [] reserved = reserved
release_keys id (k ∷ ks) reserved =
    release_keys id ks
      (if is_owner id (Dict.lookup k reserved) then Dict.delete k reserved else reserved)

unfoldable pub release_reserved_ports : Text → Reserved → Reserved
release_reserved_ports id [] = []
release_reserved_ports id ((k, owner) ∷ reserved) =
    let rest = release_reserved_ports id reserved in if owner == id then rest else (k, owner) ∷ rest

-- The owner and the protocol of each host port in use.
abbrev pub Used : Type 0
Used = Dict ℤ (Text × Text)

unfoldable pub use_ports : Text → List PortMapping → Used → Used
use_ports id [] used = used
use_ports id (p ∷ ps) used =
    use_ports id ps (Dict.insert p.host_port (id, normalize_proto p.protocol) used)

unfoldable pub used_ports : Text → List Sandbox → Used → Used
used_ports id [] used = used
used_ports id (sb ∷ all) used =
    used_ports id all (if sb.id == id then used else use_ports sb.id sb.ports used)

abbrev in_use : ℤ → Text → Text → Error
in_use port proto reason = message (
    text "host port already in use: "
    ++ (format_int port ++ b'/' ∷ (proto ++ (text " (" ++ (reason ++ text ")")))))

abbrev already_reserved : ℤ → Text → Text → Error
already_reserved port proto owner = message (
    text "host port already reserved: "
    ++ (format_int port ++ b'/' ∷ (proto ++ (text " (sandbox " ++ (owner ++ text ")")))))

-- `o, ok := used[p.HostPort]; ok && o.proto == proto`
abbrev clash_of : Option (Text × Text) → Text → Option Text
clash_of none proto = none
clash_of (some (owner, used_proto)) proto = if used_proto == proto then some owner else none

-- `owner, ok := …; ok && owner != sandboxID`
abbrev rival_of : Option Text → Text → Option Text
rival_of none id = none
rival_of (some owner) id = if owner == id then none else some owner

-- `net.Listen` or `net.ListenPacket` on a port, with the error's text if it fails.
abbrev pub Listen : Type 0
Listen = ℤ → Text → Option Text

unfoldable pub check_requested : Text → Used → Reserved → Listen → List PortMapping → Option Error
check_requested id used reserved listen [] = none
check_requested id used reserved listen (p ∷ ps) =
    let proto = normalize_proto p.protocol in
    let rest = check_requested id used reserved listen ps in
    elim (clash_of (Dict.lookup p.host_port used) proto) [
      | some owner ↦ some (in_use p.host_port proto (text "sandbox " ++ owner))
      | none ↦ elim (rival_of (reserved_port_owner reserved p.host_port proto) id) [
        | some owner ↦ some (already_reserved p.host_port proto owner)
        | none ↦ elim (listen p.host_port proto) [
          | some reason ↦ some (in_use p.host_port proto reason)
          | none ↦ rest
        ]
      ]
    ]

unfoldable pub ensure_host_ports_available :
    Text → List PortMapping → Result (List Sandbox) → Reserved → Listen → Option Error
ensure_host_ports_available id [] listed reserved listen = none
ensure_host_ports_available id (p ∷ ps) (err e) reserved listen = some e
ensure_host_ports_available id (p ∷ ps) (ok all) reserved listen =
    check_requested id (used_ports id all []) reserved listen (p ∷ ps)
