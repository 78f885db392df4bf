-- ===== src/Model/Validate/Laws.antt =====
-- What a request satisfies when `Validate` accepts it.
use go_firecracker_container.Base.{
  ◌≡◌, refl, ◌≢◌, ◌↔◌, ◌⊎◌, ◌≤◌, none, List, [], ◌∷◌, map, length, All, NoDuplicates, AreFresh,
  AreFresh-nil_iff, nat_eq, list_eq, arith,
}
use go_firecracker_container.Base.Text.{Text}
use go_firecracker_container.Base.Integer.{ℤ, IsWithin, int_eq}
use go_firecracker_container.Model.{PortMapping, CreateContainerRequest, CreateSandboxRequest}
use go_firecracker_container.Model.Validate.{
  tcp, udp, proto_of, check_containers, check_port, check_ports, validate,
}

abbrev pub IsNamed : CreateContainerRequest → Type 0
IsNamed c = (c.name ≢ []) × (c.image ≢ [])

-- A mapping of an unprivileged host port to a port, by TCP or UDP.
abbrev pub IsPublishable : PortMapping → Type 0
IsPublishable p =
    IsWithin 1024 65535 p.host_port
    × IsWithin 1 65535 p.container_port
    × ((proto_of p.protocol ≡ tcp) ⊎ (proto_of p.protocol ≡ udp))

pub record IsValid (r : CreateSandboxRequest) : Type 0 where
  pub id_set : r.id ≢ []
  pub two_containers : 2 ≤ length r.containers
  pub named : All IsNamed r.containers
  pub names_differ : NoDuplicates (map (λ c. c.name) r.containers)
  pub publishable : All IsPublishable r.ports
  pub host_ports_differ : NoDuplicates (map (λ p. p.host_port) r.ports)

check_containers_iff :
    (seen : List Text) (cs : List CreateContainerRequest)
    → (check_containers seen cs ≡ none) ↔ (All IsNamed cs × AreFresh seen (map (λ c. c.name) cs))
unfolding check_containers
check_containers_iff seen [] = (λ h. (tt, tt), λ h. refl)
check_containers_iff seen (c ∷ cs) = ground (arith, check_containers_iff (c.name ∷ seen) cs)

check_port_iff : (p : PortMapping) → (check_port p ≡ none) ↔ IsPublishable p
unfolding check_port
check_port_iff p = ground arith

check_ports_iff :
    (seen : List ℤ) (ps : List PortMapping)
    → (check_ports seen ps ≡ none)
      ↔ (All IsPublishable ps × AreFresh seen (map (λ p. p.host_port) ps))
unfolding check_ports
check_ports_iff seen [] = (λ h. (tt, tt), λ h. refl)
check_ports_iff seen (p ∷ ps) =
    ground (arith, check_port_iff p, check_ports_iff (p.host_port ∷ seen) ps)

-- `Validate` returns no error exactly for the valid requests.
pub validate_iff : (r : CreateSandboxRequest) → (validate r ≡ none) ↔ IsValid r
unfolding validate
validate_iff r = ground (
  arith,
  check_containers_iff [] r.containers,
  check_ports_iff [] r.ports,
  AreFresh-nil_iff (map (λ c. c.name) r.containers),
  AreFresh-nil_iff (map (λ p. p.host_port) r.ports),
)
