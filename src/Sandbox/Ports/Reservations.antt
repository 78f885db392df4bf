-- ===== src/Sandbox/Ports/Reservations.antt =====
-- What reserving and releasing do to the reservation of each port.
use go_firecracker_container.Base.{
  ◌≡◌, refl, ◌∙◌, ◌≢◌, false, ◌&&◌, none, some, List, [], ◌∷◌, contains, NoDuplicates, nat_eq,
  list_eq, arith, if◌then◌else◌, Bool-cases, inl, inr,
}
use go_firecracker_container.Base.Text.{Text}
use go_firecracker_container.Base.Dict
use go_firecracker_container.Model.{PortMapping, Sandbox, Result, ok, err}
use go_firecracker_container.Sandbox.Ports.{
  Reserved, key_of, requested_keys, reserve_requested_ports, release_keys, is_owner, Used, Listen,
  release_reserved_ports, reserved_port_owner, check_requested, ensure_host_ports_available,
}

pub lookup-reserve_requested_ports :
    (id : Text) (ps : List PortMapping) (reserved : Reserved) (k : Text)
    → Dict.lookup k (reserve_requested_ports id ps reserved)
      ≡ (if contains (requested_keys ps) k then some id else Dict.lookup k reserved)
unfolding reserve_requested_ports requested_keys contains
lookup-reserve_requested_ports id [] reserved k = refl
lookup-reserve_requested_ports id (p ∷ ps) reserved k = ground (
  arith,
  lookup-reserve_requested_ports id ps (Dict.insert (key_of p) id reserved) k,
  Dict.lookup-insert k (key_of p) id reserved,
)

lookup-release_keys :
    (id : Text) (ks : List Text) (reserved : Reserved) (k : Text)
    → Dict.lookup k (release_keys id ks reserved) ≡ (
        if contains ks k && is_owner id (Dict.lookup k reserved)
        then none
        else Dict.lookup k reserved)
unfolding release_keys contains
lookup-release_keys id [] reserved k = refl
lookup-release_keys id (j ∷ ks) reserved k =
    elim (Bool-cases (is_owner id (Dict.lookup j reserved))) [
      | inl mine ↦
          rw (mine, release_keys)
            (ground (
              arith,
              lookup-release_keys id ks (Dict.delete j reserved) k,
              Dict.lookup-delete k j reserved,
            ))
      | inr other ↦ rw (other, release_keys) (ground (arith, lookup-release_keys id ks reserved k))
    ]

-- The function that `reserveRequestedPorts` returns takes the reservations of the request back, and
-- leaves every other port as it was.
pub release_keys-reserve :
    (id : Text) (ps : List PortMapping) (reserved : Reserved) (k : Text)
    → Dict.lookup k (release_keys id (requested_keys ps) (reserve_requested_ports id ps reserved))
      ≡ (if contains (requested_keys ps) k then none else Dict.lookup k reserved)
release_keys-reserve id ps reserved k = ground (
  arith,
  lookup-release_keys id (requested_keys ps) (reserve_requested_ports id ps reserved) k,
  lookup-reserve_requested_ports id ps reserved k,
)

lookup-absent :
    (reserved : Reserved) (k : Text)
    → contains (Dict.keys reserved) k ≡ false
    → Dict.lookup k reserved ≡ none
unfolding Dict.lookup Dict.keys contains
lookup-absent [] k h = refl
lookup-absent ((j, v) ∷ reserved) k h = ground (arith, lookup-absent reserved k)

-- `releaseReservedPorts` drops the reservations of one sandbox and keeps all others.
pub lookup-release_reserved_ports :
    (id : Text) (reserved : Reserved) (k : Text)
    → NoDuplicates (Dict.keys reserved)
    → Dict.lookup k (release_reserved_ports id reserved)
      ≡ (if is_owner id (Dict.lookup k reserved) then none else Dict.lookup k reserved)
unfolding release_reserved_ports Dict.lookup Dict.keys
lookup-release_reserved_ports id [] k u = ground arith
lookup-release_reserved_ports id ((j, owner) ∷ reserved) k u =
    ground (arith, lookup-release_reserved_ports id reserved k u.1, lookup-absent reserved j u.0)

check_requested-rival :
    (id : Text) (used : Used) (reserved : Reserved) (listen : Listen) (ps : List PortMapping)
    (k owner : Text)
    → check_requested id used reserved listen ps ≡ none
    → Dict.lookup k reserved ≡ some owner
    → owner ≢ id
    → contains (requested_keys ps) k ≡ false
unfolding check_requested requested_keys reserved_port_owner contains
check_requested-rival id used reserved listen [] k owner h held other = refl
check_requested-rival id used reserved listen (p ∷ ps) k owner h held other =
    ground (arith, check_requested-rival id used reserved listen ps k owner)

-- A request that passes the check takes no reservation from another sandbox.
pub ensure-reserve_keeps_rivals :
    (id : Text) (ps : List PortMapping) (listed : Result (List Sandbox)) (reserved : Reserved)
    (listen : Listen) (k owner : Text)
    → ensure_host_ports_available id ps listed reserved listen ≡ none
    → Dict.lookup k reserved ≡ some owner
    → owner ≢ id
    → Dict.lookup k (reserve_requested_ports id ps reserved) ≡ some owner
unfolding ensure_host_ports_available requested_keys contains
ensure-reserve_keeps_rivals id [] listed reserved listen k owner h held other =
    lookup-reserve_requested_ports id [] reserved k ∙ held
ensure-reserve_keeps_rivals id (p ∷ ps) (err e) reserved listen k owner h held other = cc
ensure-reserve_keeps_rivals id (p ∷ ps) (ok all) reserved listen k owner h held other = ground (
  arith,
  lookup-reserve_requested_ports id (p ∷ ps) reserved k,
  check_requested-rival id _ reserved listen (p ∷ ps) k owner h held other,
)
