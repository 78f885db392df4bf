-- ===== src/Model/Validate.antt =====
-- internal/model/validate.go. The two loops carry the set of names or of ports seen so far.
pub mod Laws
mod Tests
use go_firecracker_container.Base.{
  Bool, true, false, ◌||◌, not, ◌&&◌, Option, none, some, List, [], ◌∷◌, ◌++◌, ltb, length,
  contains, ◌==◌, nat_eq, list_eq, if◌then◌else◌,
}
use go_firecracker_container.Base.Text.{Text, text, to_lower, trim_space}
use go_firecracker_container.Base.Integer.{ℤ, is_below, is_above, int_eq}
use go_firecracker_container.Base.Decimal.{format_int}
use go_firecracker_container.Model.{
  PortMapping, CreateContainerRequest, CreateSandboxRequest, Error, message,
}

abbrev pub tcp : Text
tcp = text "tcp"

abbrev pub udp : Text
udp = text "udp"

-- The protocol of a mapping in lower case, "tcp" if it is blank.
unfoldable pub proto_of : Text → Text
proto_of protocol = let proto = to_lower (trim_space protocol) in if proto == [] then tcp else proto

check_containers : List Text → List CreateContainerRequest → Option Error
check_containers seen [] = none
check_containers seen (c ∷ cs) =
    let rest = check_containers (c.name ∷ seen) cs in
    if c.name == [] || c.image == []
    then some (message (text "container name and image are required"))
    else if contains seen c.name
    then some (message (text "duplicate container name: " ++ c.name))
    else rest

-- `port < 1 || port > 65535`
abbrev pub is_no_port : ℤ → Bool
is_no_port port = is_below port 1 || is_above port 65535

check_port : PortMapping → Option Error
check_port p =
    if is_no_port p.host_port || is_no_port p.container_port
    then some (
        message (
          text "invalid port mapping: "
          ++ (format_int p.host_port ++ (text ":" ++ format_int p.container_port))))
    else if is_below p.host_port 1024
    then some (message (text "privileged host ports are not allowed: " ++ format_int p.host_port))
    else if not (proto_of p.protocol == tcp) && not (proto_of p.protocol == udp)
    then some (message (text "unsupported protocol: " ++ p.protocol))
    else none

check_ports : List ℤ → List PortMapping → Option Error
check_ports seen [] = none
check_ports seen (p ∷ ps) =
    let rest = check_ports (p.host_port ∷ seen) ps in
    elim (check_port p) [
      | some e ↦ some e
      | none ↦
          if contains seen p.host_port
          then some (message (text "duplicate host port: " ++ format_int p.host_port))
          else rest
    ]

unfoldable pub validate : CreateSandboxRequest → Option Error
unfolding check_containers check_ports proto_of check_port
validate r =
    if r.id == []
    then some (message (text "id is required"))
    else if ltb (length r.containers) 2
    then some (message (text "at least two containers are required"))
    else elim (check_containers [] r.containers) [ some e ↦ some e | none ↦ check_ports [] r.ports ]
