-- ===== src/Sandbox/Ports/Conflicts.antt =====
-- The check of a request against the ports of the stored sandboxes.
use go_firecracker_container.Base.{
  ◌≡◌, refl, ◌≢◌, Bool, true, false, ◌&&◌, none, some, List, [], ◌∷◌, ◌++◌, contains,
  contains-append, any, not, NoDuplicates-append, Bool-cases, inl, inr, All, NoDuplicates, ◌==◌,
  nat_eq, list_eq, arith, if◌then◌else◌, map,
}
use go_firecracker_container.Base.Text.{Text}
use go_firecracker_container.Base.Integer.{ℤ, int_eq}
use go_firecracker_container.Base.Dict
use go_firecracker_container.Model.{PortMapping, Sandbox, ok}
use go_firecracker_container.Sandbox.Ports.{
  Used, Listen, Reserved, normalize_proto, use_ports, used_ports, check_requested,
  ensure_host_ports_available, clash_of, reserved_port_owner,
}

-- The host ports of all sandboxes but one, in the order of the store.
abbrev pub host_ports : List PortMapping → List ℤ
host_ports = map (λ p. p.host_port)

abbrev pub others_host_ports : Text → List Sandbox → List ℤ
others_host_ports id [] = []
others_host_ports id (sb ∷ all) =
    let rest = others_host_ports id all in if sb.id == id then rest else host_ports sb.ports ++ rest

use_ports-other :
    (id : Text) (ps : List PortMapping) (used : Used) (h : ℤ)
    → contains (host_ports ps) h ≡ false
    → Dict.lookup h (use_ports id ps used) ≡ Dict.lookup h used
unfolding use_ports contains
use_ports-other id [] used h away = refl
use_ports-other id (p ∷ ps) used h away = ground (
  arith,
  use_ports-other id ps (Dict.insert p.host_port (id, normalize_proto p.protocol) used) h,
  Dict.lookup-insert h p.host_port (id, normalize_proto p.protocol) used,
)

used_ports-other :
    (id : Text) (all : List Sandbox) (used : Used) (h : ℤ)
    → contains (others_host_ports id all) h ≡ false
    → Dict.lookup h (used_ports id all used) ≡ Dict.lookup h used
unfolding used_ports contains
used_ports-other id [] used h away = refl
used_ports-other id (sb ∷ all) used h away = ground (
  arith,
  contains-append (host_ports sb.ports) (others_host_ports id all) h,
  used_ports-other id all used h,
  used_ports-other id all (use_ports sb.id sb.ports used) h,
  use_ports-other sb.id sb.ports used h,
)

abbrev pub publishes : List PortMapping → ℤ → Text → Bool
publishes ps h proto = any (λ q. q.host_port == h && normalize_proto q.protocol == proto) ps

-- Some other sandbox publishes the host port by the protocol.
abbrev pub is_taken : Text → List Sandbox → ℤ → Text → Bool
is_taken id all h proto = any (λ sb. not (sb.id == id) && publishes sb.ports h proto) all

host_port_of_publishes :
    (ps : List PortMapping) (h : ℤ) (proto : Text)
    → publishes ps h proto ≡ true
    → contains (host_ports ps) h ≡ true
unfolding contains
host_port_of_publishes [] h proto e = cc
host_port_of_publishes (p ∷ ps) h proto e = ground (arith, host_port_of_publishes ps h proto)

use_ports-publishes :
    (id : Text) (ps : List PortMapping) (used : Used) (h : ℤ) (proto : Text)
    → NoDuplicates (host_ports ps)
    → publishes ps h proto ≡ true
    → Dict.lookup h (use_ports id ps used) ≡ some (id, proto)
unfolding use_ports
use_ports-publishes id [] used h proto u e = cc
use_ports-publishes id (p ∷ ps) used h proto u e =
    let next = Dict.insert p.host_port (id, normalize_proto p.protocol) used in
    ground (
      arith,
      use_ports-publishes id ps next h proto u.1,
      use_ports-other id ps next p.host_port u.0,
      Dict.lookup-insert h p.host_port (id, normalize_proto p.protocol) used,
    )

-- The last component of an entry.
used_ports-is_taken :
    (id : Text) (all : List Sandbox) (used : Used) (h : ℤ) (proto : Text)
    → NoDuplicates (others_host_ports id all)
    → is_taken id all h proto ≡ true
    → clash_of (Dict.lookup h (used_ports id all used)) proto ≢ none
unfolding used_ports
used_ports-is_taken id [] used h proto u e = cc
used_ports-is_taken id (sb ∷ all) used h proto u e = elim (Bool-cases (sb.id == id)) [
  | inl own ↦
      rw (own, used_ports) (used_ports-is_taken id all used h proto (rw own at u) (ground arith))
  | inr foreign ↦
      let parts =
        NoDuplicates-append (host_ports sb.ports) (others_host_ports id all) (rw foreign at u) in
      rw (foreign, used_ports)
        (elim (Bool-cases (publishes sb.ports h proto)) [
          | inl here ↦ ground (
            arith,
            used_ports-other id all (use_ports sb.id sb.ports used) h
                (parts.2 h (host_port_of_publishes sb.ports h proto here)),
            use_ports-publishes sb.id sb.ports used h proto parts.0 here,
          )
          | inr later ↦
              used_ports-is_taken id all (use_ports sb.id sb.ports used) h proto parts.1
                (ground arith)
        ])
]

check_requested-free :
    (id : Text) (used : Used) (reserved : Reserved) (listen : Listen) (ps : List PortMapping)
    → check_requested id used reserved listen ps ≡ none
    → All (λ p. clash_of (Dict.lookup p.host_port used) (normalize_proto p.protocol) ≡ none) ps
unfolding check_requested
check_requested-free id used reserved listen [] h = tt
check_requested-free id used reserved listen (p ∷ ps) h =
    (ground arith, check_requested-free id used reserved listen ps (ground arith))

All-map :
    {P Q : PortMapping → Type 0} (f : (p : PortMapping) → P p → Q p) (ps : List PortMapping)
    → All P ps
    → All Q ps
All-map f [] h = tt
All-map f (p ∷ ps) (h, k) = (f p h, All-map f ps k)

-- Where no two other sandboxes publish one host port, a request that passes the check asks for no
-- port that another sandbox publishes by the same protocol.
pub ensure_host_ports_available_sound :
    (id : Text) (ps : List PortMapping) (all : List Sandbox) (reserved : Reserved) (listen : Listen)
    → NoDuplicates (others_host_ports id all)
    → ensure_host_ports_available id ps (ok all) reserved listen ≡ none
    → All (λ p. is_taken id all p.host_port (normalize_proto p.protocol) ≡ false) ps
unfolding ensure_host_ports_available
ensure_host_ports_available_sound id [] all reserved listen u h = tt
ensure_host_ports_available_sound id (p ∷ ps) all reserved listen u h =
    All-map
      (λ q free.
        ground (arith, used_ports-is_taken id all [] q.host_port (normalize_proto q.protocol) u))
      (p ∷ ps) (check_requested-free id (used_ports id all []) reserved listen (p ∷ ps) h)

-- The table of used ports has one entry for a host port, so that of two sandboxes which publish one
-- port by two protocols only the one that is listed later is seen: a request for the port by the
-- protocol of the other passes the check, though it is taken.
pub ensure_host_ports_available_blind :
    (id : Text) (early late : Sandbox) (p q r : PortMapping) (reserved : Reserved) (listen : Listen)
    → early.id ≢ id
    → late.id ≢ id
    → early.ports ≡ p ∷ []
    → late.ports ≡ q ∷ []
    → q.host_port ≡ p.host_port
    → normalize_proto q.protocol ≢ normalize_proto p.protocol
    → r.host_port ≡ p.host_port
    → normalize_proto r.protocol ≡ normalize_proto p.protocol
    → reserved_port_owner reserved r.host_port (normalize_proto r.protocol) ≡ none
    → listen r.host_port (normalize_proto r.protocol) ≡ none
    → (is_taken id (early ∷ late ∷ []) r.host_port (normalize_proto r.protocol) ≡ true)
      × (ensure_host_ports_available id (r ∷ []) (ok (early ∷ late ∷ [])) reserved listen ≡ none)
unfolding ensure_host_ports_available check_requested used_ports use_ports Dict.lookup Dict.insert
ensure_host_ports_available_blind id early late p q r reserved listen a b c d e f g h k l =
    rw (c, d) (ground arith, ground arith)
