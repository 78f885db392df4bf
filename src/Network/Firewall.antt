-- ===== src/Network/Firewall.antt =====
-- internal/network/firewall.go: the global chains and the chains of a sandbox. The calls of the
-- debug logger are left out. The nameservers of /etc/resolv.conf are an argument.
pub mod Names
pub mod View
pub mod Chains
pub mod Install
pub mod Policy
pub mod Frame
pub mod Unhook
pub mod Jumps
pub mod Remove
pub mod Global
mod Tests
use go_firecracker_container.Base.{
  ℕ, Bool, true, false, ◌||◌, not, Option, none, some, List, [], ◌∷◌, ◌++◌, map, any, contains,
  ◌==◌, nat_eq, list_eq, if◌then◌else◌,
}
use Prim.Native.String.{String}
use go_firecracker_container.Base.Text.{Text, text, to_lower, to_upper, trim_space}
use go_firecracker_container.Base.Integer.{ℤ}
use go_firecracker_container.Base.Decimal.{format_int}
use go_firecracker_container.Model.{Error, message}
use go_firecracker_container.Model.Validate.{tcp}
use go_firecracker_container.Network.ShortId.{short_id}
use go_firecracker_container.Network.Tables.{IpTables, Table, filter, nat, Rule}
use go_firecracker_container.Model.Actions.{Action, done, ignore, ◌>>◌, each}

pub record PublishedPort : Type 0 where
  pub container_port : ℤ
  pub protocol : Text

abbrev pub rule : List String → Rule
rule = map text

abbrev pub accept_marked : Rule
accept_marked = rule ("-m" ∷ "mark" ∷ "--mark" ∷ "0x2000/0x2000" ∷ "-j" ∷ "ACCEPT" ∷ [])

abbrev pub accept_established : Rule
accept_established =
    rule ("-m" ∷ "conntrack" ∷ "--ctstate" ∷ "ESTABLISHED,RELATED" ∷ "-j" ∷ "ACCEPT" ∷ [])

abbrev pub jump : Text → Rule
jump chain = text "-j" ∷ chain ∷ []

abbrev pub accept_all : Rule
accept_all = jump (text "ACCEPT")

abbrev pub reject_all : Rule
reject_all = jump (text "REJECT")

abbrev pub forward_hook : Text
forward_hook = text "SANDBOX-FWD"

abbrev pub input_hook : Text
input_hook = text "SANDBOX-IN"

abbrev pub forward : Text
forward = text "FORWARD"

-- The chains of a sandbox.
unfoldable pub forward_chain : Text → Text
forward_chain id = text "SBX-" ++ (short_id id ++ text "-FWD")

unfoldable pub input_chain : Text → Text
input_chain id = text "SBX-" ++ (short_id id ++ text "-IN")

abbrev pub from_source : Text → Text → Rule
from_source ip chain = text "-s" ∷ (ip ++ text "/32") ∷ text "-j" ∷ chain ∷ []

abbrev pub from_bridge : Text → Text → Text → Rule
from_bridge bridge ip chain = text "-i" ∷ bridge ∷ from_source ip chain

-- The protocol of a rule: lower case, "tcp" if it is empty. Blanks stay.
unfoldable pub rule_proto : Text → Text
rule_proto protocol = let proto = to_lower protocol in if proto == [] then tcp else proto

-- Traffic from anywhere to a port of the sandbox.
unfoldable pub accept_to_port : Text → PublishedPort → Rule
accept_to_port ip p =
    text "-d"
    ∷ (ip ++ text "/32")
    ∷ text "-p"
    ∷ rule_proto p.protocol
    ∷ text "--dport"
    ∷ format_int p.container_port
    ∷ accept_all

unfoldable pub accept_from_port : PublishedPort → Rule
accept_from_port p =
    text "-p" ∷ rule_proto p.protocol ∷ text "--sport" ∷ format_int p.container_port ∷ accept_all

abbrev pub accept_dns_to : Text → String → Rule
accept_dns_to server proto =
    text "-d" ∷ server ∷ rule ("-p" ∷ proto ∷ "--dport" ∷ "53" ∷ "-j" ∷ "ACCEPT" ∷ [])

abbrev pub accept_dns : String → Rule
accept_dns proto = rule ("-p" ∷ proto ∷ "--dport" ∷ "53" ∷ "-j" ∷ "ACCEPT" ∷ [])

abbrev pub reject_local : Rule
reject_local = rule ("-m" ∷ "addrtype" ∷ "--dst-type" ∷ "LOCAL" ∷ "-j" ∷ "REJECT" ∷ [])

abbrev pub reject_to : Text → Rule
reject_to cidr = text "-d" ∷ cidr ∷ reject_all

-- The networks that a sandbox may not reach, beside its own bridge.
abbrev pub private_networks : List Text
private_networks = map text (
    "10.0.0.0/8" ∷ "172.16.0.0/12" ∷ "192.168.0.0/16" ∷ "127.0.0.0/8" ∷ "169.254.0.0/16"
    ∷ "100.64.0.0/10" ∷ "198.18.0.0/15" ∷ "224.0.0.0/4" ∷ "240.0.0.0/4" ∷ [])

-- `strings.ToUpper(strings.TrimSpace(c)) == target` for some chain
unfoldable pub contains_chain : List Text → Text → Bool
contains_chain chains target =
    any (λ c. to_upper (trim_space c) == to_upper (trim_space target)) chains

module _ (I : IpTables) where
  open I use {
    State, new_chain, clear_chain, delete_chain, append_unique, insert, delete, list_chains,
  }

  unfoldable pub has_chain : State → Text → Bool
  has_chain s chain = elim (list_chains s filter) [
    | none ↦ false
    | some chains ↦ contains chains chain
  ]

  abbrev pub append : Text → Rule → Action State
  append chain r s = append_unique s filter chain r

  -- `_ = ipt.AppendUnique("filter", …)`
  abbrev pub try_append : Text → Rule → Action State
  try_append chain r = ignore (append chain r)

  abbrev wrap_insert : Option Error → Option Error
  wrap_insert none = none
  wrap_insert (some Error.not_exist) = some Error.not_exist
  wrap_insert (some (message m)) = some (message (text "insert rule: " ++ m))

  unfoldable pub insert_first : Text → Rule → Action State
  insert_first parent r = ignore (λ s. delete s filter parent r) >> λ s.
      let (s', e) = insert s filter parent 1 r in (s', wrap_insert e)

  unfoldable pub insert_forward_accept_early : Text → PublishedPort → Action State
  insert_forward_accept_early ip p = do
    ignore (λ s. delete s filter forward (accept_to_port ip p))
    λ s. insert s filter forward 2 (accept_to_port ip p)

  -- One round of the loop over the chains that are hooked.
  unfoldable pub hook_chain : Text → Action State
  hook_chain name s =
      let chain = trim_space (to_upper name) in
      if chain == [] || not (has_chain s chain)
      then (s, none)
      else insert_first chain (jump forward_hook) s

  unfoldable pub hooks_of : List Text → List Text
  hooks_of chains =
      let some_chains = if chains == [] then forward ∷ [] else chains in
      if contains_chain some_chains forward then some_chains else forward ∷ some_chains

  unfoldable pub ensure_global_chains : List Text → Action State
  ensure_global_chains forward_hook_chains = do
    ignore (λ s. new_chain s filter forward_hook)
    ignore (λ s. new_chain s filter input_hook)
    insert_first forward accept_marked
    insert_first forward accept_established
    each hook_chain (hooks_of forward_hook_chains)
    insert_first (text "INPUT") (jump input_hook)

  -- The chains of the sandbox exist and are entered from the global ones.
  unfoldable pub attach_chains : Text → Text → Text → Action State
  attach_chains id ip bridge = do
    ignore (λ s. new_chain s filter (forward_chain id))
    ignore (λ s. new_chain s filter (input_chain id))
    append forward_hook (from_source ip (forward_chain id))
    append input_hook (from_bridge bridge ip (input_chain id))

  unfoldable pub allow_dns : Text → Text → Action State
  allow_dns chain server = do
    try_append chain (accept_dns_to server "udp")
    try_append chain (accept_dns_to server "tcp")

  unfoldable pub allow_name_service : List Text → Text → Action State
  allow_name_service nameservers chain = do
    each (allow_dns chain) nameservers
    try_append chain (accept_dns "udp")
    try_append chain (accept_dns "tcp")

  unfoldable pub fill_forward_chain : List Text → Text → Text → Bool → Action State
  fill_forward_chain nameservers chain cidr egress = do
    try_append chain accept_established
    if egress then allow_name_service nameservers chain else done
    try_append chain reject_local
    each (λ c. try_append chain (reject_to c)) (cidr ∷ private_networks)
    if egress then try_append chain accept_all else try_append chain reject_all

  unfoldable pub fill_input_chain : Text → List PublishedPort → Action State
  fill_input_chain chain ports = do
    try_append chain accept_established
    each (λ p. try_append chain (accept_from_port p)) ports
    try_append chain reject_all

  unfoldable pub apply_sandbox_rules :
      List Text → Text → Text → Text → Text → Bool → List PublishedPort → Action State
  apply_sandbox_rules nameservers id ip cidr bridge egress ports = do
    attach_chains id ip bridge
    each (λ p. ignore (insert_forward_accept_early ip p)) ports
    fill_forward_chain nameservers (forward_chain id) cidr egress
    fill_input_chain (input_chain id) ports

  unfoldable pub delete_sandbox_rules : Text → Text → Text → List PublishedPort → Action State
  delete_sandbox_rules id ip bridge ports = do
    each (λ p. ignore (λ s. delete s filter forward (accept_to_port ip p))) ports
    ignore (λ s. delete s filter forward_hook (from_source ip (forward_chain id)))
    ignore (λ s. delete s filter input_hook (from_bridge bridge ip (input_chain id)))
    ignore (λ s. clear_chain s filter (forward_chain id))
    ignore (λ s. clear_chain s filter (input_chain id))
    ignore (λ s. delete_chain s filter (forward_chain id))
    ignore (λ s. delete_chain s filter (input_chain id))
