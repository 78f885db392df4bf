-- ===== src/Network/Dnat.antt =====
-- internal/network/firewall.go: the published host ports, which are rules of the table nat with a
-- comment that names their sandbox. The calls of the debug logger are left out.
pub mod RuleLists
pub mod Publish
pub mod Tagged
mod Tests
use go_firecracker_container.Base.{
  Bool, true, false, not, ◌||◌, Option, none, some, List, [], ◌∷◌, ◌++◌, contains, ◌==◌, nat_eq,
  list_eq, if◌then◌else◌,
}
use go_firecracker_container.Base.Text.{
  Text, text, to_lower, trim_space, has_prefix, contains_text, trim_prefix, fields, trim_quotes,
}
use go_firecracker_container.Base.Integer.{ℤ}
use go_firecracker_container.Base.Decimal.{format_int}
use go_firecracker_container.Network.Tables.{IpTables, nat, Rule}
use go_firecracker_container.Model.Actions.{Action, ignore, ◌>>◌, each}
use go_firecracker_container.Network.Firewall.{rule}

pub record HostPortForward : Type 0 where
  pub host_port : ℤ
  pub container_port : ℤ
  pub protocol : Text

abbrev pub host_port_comment_prefix : Text
host_port_comment_prefix = text "SBX:"

abbrev pub prerouting : Text
prerouting = text "PREROUTING"

abbrev pub output : Text
output = text "OUTPUT"

unfoldable pub forward_proto : HostPortForward → Text
forward_proto f =
    let proto = to_lower (trim_space f.protocol) in if proto == [] then text "tcp" else proto

-- The rule that both chains share, from "-p" on.
unfoldable pub dnat_rule : Text → Text → HostPortForward → Rule
dnat_rule id ip f =
    text "-p"
    ∷ forward_proto f
    ∷ text "--dport"
    ∷ format_int f.host_port
    ∷ text "-m"
    ∷ text "comment"
    ∷ text "--comment"
    ∷ (host_port_comment_prefix ++ id)
    ∷ text "-j"
    ∷ text "DNAT"
    ∷ text "--to-destination"
    ∷ (ip ++ b':' ∷ format_int f.container_port)
    ∷ []

unfoldable pub output_rule : Text → Text → HostPortForward → Rule
output_rule id ip f =
    text "-m" ∷ text "addrtype" ∷ text "--dst-type" ∷ text "LOCAL" ∷ dnat_rule id ip f

-- The sandbox that the comment of a rule names, "" for none.
unfoldable pub sandbox_id_from_rule : List Text → Text
sandbox_id_from_rule [] = []
sandbox_id_from_rule (a ∷ []) = []
sandbox_id_from_rule (a ∷ b ∷ rest) =
    let found = sandbox_id_from_rule (b ∷ rest) in
    if a == text "--comment"
    then if has_prefix (trim_quotes b) host_port_comment_prefix
      then trim_prefix (trim_quotes b) host_port_comment_prefix
      else found
    else found

-- `fields[2:]` of a line that adds a rule
unfoldable pub rule_of_line : List Text → Option Rule
rule_of_line (a ∷ chain ∷ r ∷ rs) = if a == text "-A" then some (r ∷ rs) else none
rule_of_line _ = none

-- The text by which the rules of a sandbox are recognised.
unfoldable pub sandbox_tag : Text → Text
sandbox_tag id = text "--comment " ++ (host_port_comment_prefix ++ id)

module _ (I : IpTables) where
  open I use {State, append_unique, delete, list}

  unfoldable pub apply_host_port_dnat : Text → Text → List HostPortForward → Action State
  apply_host_port_dnat id ip = each λ f.
      (λ s. append_unique s nat prerouting (dnat_rule id ip f)) >> λ s.
      append_unique s nat output (output_rule id ip f)

  unfoldable pub delete_host_port_dnat : Text → Text → List HostPortForward → Action State
  delete_host_port_dnat id ip = each λ f.
      ignore (λ s. delete s nat prerouting (dnat_rule id ip f))
      >> ignore λ s. delete s nat output (output_rule id ip f)

  -- `_ = ipt.Delete("nat", chain, fields[2:]...)` if there are such fields
  unfoldable pub delete_line : Text → Option Rule → Action State
  delete_line chain none s = (s, none)
  delete_line chain (some r) s = ((delete s nat chain r).0, none)

  -- One round of the loop of `deleteTagged`.
  unfoldable pub delete_if_tagged : Text → Text → Text → Action State
  delete_if_tagged id chain line s =
      if not (contains_text line (sandbox_tag id))
      then (s, none)
      else delete_line chain (rule_of_line (fields (trim_space line))) s

  -- A loop over the rules of a chain, if they can be listed.
  unfoldable pub each_line : (Text → Text → Action State) → Text → Action State
  each_line f chain s = elim (list s nat chain) [
    | none ↦ (s, none)
    | some lines ↦ each (f chain) lines s
  ]

  unfoldable pub delete_host_port_dnat_by_sandbox : Text → Action State
  delete_host_port_dnat_by_sandbox id =
      each_line (delete_if_tagged id) prerouting >> each_line (delete_if_tagged id) output

  -- One round of the loop of `cleanup`. A line that adds no rule is left alone.
  unfoldable pub delete_if_orphan : List Text → Text → Text → Action State
  delete_if_orphan keep chain line s =
      let words = fields (trim_space line) in
      let id = sandbox_id_from_rule words in
      if id == [] || contains keep id then (s, none) else delete_line chain (rule_of_line words) s

  unfoldable pub delete_orphan_host_port_dnat : List Text → Action State
  delete_orphan_host_port_dnat keep =
      each_line (delete_if_orphan keep) prerouting >> each_line (delete_if_orphan keep) output
