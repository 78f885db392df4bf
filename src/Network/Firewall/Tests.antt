-- ===== src/Network/Firewall/Tests.antt =====
-- The firewall over the table in memory.
use mathlib.Core.Option
use go_firecracker_container.Base.{
  ◌&&◌, ◌≡◌, refl, ◌≢◌, ◌↔◌, Bool, true, false, none, some, List, [], ◌∷◌, ◌==◌, nat_eq, list_eq,
  contains, arith, ℕ_discrete,
}
use go_firecracker_container.Base.Text.{Text, text, to_lower, to_upper, trim_space}
use go_firecracker_container.Base.Dict
use go_firecracker_container.Base.Integer.{pos}
use go_firecracker_container.Base.Decimal.{format_int}
use go_firecracker_container.Network.ShortId.{short_id, fnv32a}
use go_firecracker_container.Network.Tables.{
  IsUnused, Table, filter, nat, table_eq, Rule, add_unique, remove_first, insert_at,
}
use go_firecracker_container.Model.Actions.{◌>>◌, each}
use go_firecracker_container.Network.Tables.Memory.{
  Memory, memory_tables, memory_tables-IsLawful, memory_tables-IsReliable,
}
use go_firecracker_container.Network.Firewall.{
  accept_established, accept_marked, jump, from_source, ensure_global_chains, hook_chain, hooks_of,
  has_chain, contains_chain, insert_first, PublishedPort, forward, forward_hook, input_hook,
  forward_chain, input_chain, from_bridge, apply_sandbox_rules, delete_sandbox_rules,
  accept_from_port, attach_chains, fill_forward_chain, fill_input_chain, allow_name_service,
  allow_dns, insert_forward_accept_early, accept_to_port, rule_proto,
}
use go_firecracker_container.Network.Firewall.Names.{chains_shared_iff}
use go_firecracker_container.Network.Firewall.Global.{built_in_input, ensure_global_chains_heads}
use go_firecracker_container.Network.Firewall.View.{Shows}
use go_firecracker_container.Network.Firewall.Install.{
  IsNew, installed, apply_sandbox_rules_installs,
}
use go_firecracker_container.Network.Firewall.Policy.{verdict, rejected, apply_sandbox_rules_policy}
use go_firecracker_container.Network.Firewall.Frame.{sandbox_rules_isolated}
use go_firecracker_container.Network.Firewall.Remove.{delete-apply_sandbox_rules}

-- A host with the hooks in place and no sandbox.
abbrev bare : Memory
bare filter = (forward, []) ∷ (forward_hook, []) ∷ (input_hook, []) ∷ []
bare nat = []

abbrev demo : Text
demo = text "demo"

abbrev other : Text
other = text "other"

abbrev demo_ip : Text
demo_ip = text "10.89.0.18"

abbrev cidr : Text
cidr = text "10.89.0.0/16"

abbrev bridge : Text
bridge = text "fc-br0"

abbrev published : List PublishedPort
published = record { container_port = pos 8080; protocol = text "TCP" } ∷ []

short_id-demo : short_id demo ≡ text "aefd3536"
unfolding short_id fnv32a
short_id-demo = refl

hashes_differ : fnv32a demo ≢ fnv32a other
unfolding fnv32a
hashes_differ = omega arith

bare-IsNew : IsNew memory_tables demo bare [] []
unfolding Dict.lookup list_eq ℕ_discrete forward_chain input_chain short_id fnv32a
bare-IsNew = record {
  hooked = refl;
  guarded = refl;
  no_forward_chain = refl;
  no_input_chain = refl;
}

after_apply : Memory
after_apply = (apply_sandbox_rules memory_tables [] demo demo_ip cidr bridge false published bare).0

run_apply :
    Dict.lookup input_hook (after_apply filter)
    ≡ some (from_bridge bridge demo_ip (input_chain demo) ∷ [])
unfolding after_apply apply_sandbox_rules attach_chains fill_forward_chain fill_input_chain
    allow_name_service allow_dns insert_forward_accept_early accept_to_port accept_from_port
    rule_proto ◌>>◌ each add_unique remove_first insert_at contains Dict.lookup Dict.insert list_eq
    ℕ_discrete table_eq short_id fnv32a forward_chain input_chain format_int to_lower
run_apply = refl

-- Packets known by the network that they are sent to.
abbrev by_destination : Rule → Text → Bool
by_destination (d ∷ network ∷ j ∷ t ∷ []) p = d == text "-d" && network == p
by_destination (j ∷ t ∷ []) p = true
by_destination _ p = false

chains_shared_iff_example :
    ((forward_chain demo ≡ forward_chain other) ↔ (fnv32a demo ≡ fnv32a other))
    × ((input_chain demo ≡ input_chain other) ↔ (fnv32a demo ≡ fnv32a other))
    × (forward_chain demo ≢ input_chain other)
chains_shared_iff_example = chains_shared_iff demo other

apply_sandbox_rules_installs_example :
    let r = apply_sandbox_rules memory_tables [] demo demo_ip cidr bridge false published bare in
    (r.1 ≡ none)
    × Shows memory_tables demo r.0 (installed [] demo demo_ip cidr bridge false published [] [])
apply_sandbox_rules_installs_example =
    apply_sandbox_rules_installs memory_tables memory_tables-IsLawful memory_tables-IsReliable []
      demo demo_ip cidr bridge false published [] [] bare bare-IsNew

-- With egress, the private network is refused, and the host takes the published port only.
apply_sandbox_rules_policy_example :
    let t = (apply_sandbox_rules memory_tables [] demo demo_ip cidr bridge true published bare).0 in
    let p = text "10.0.0.0/8" in
    (Option.map (verdict by_destination p) (Dict.lookup (forward_chain demo) (t filter))
      ≡ some rejected)
    × (Option.map (verdict by_destination p) (Dict.lookup (input_chain demo) (t filter))
        ≡ some rejected)
unfolding list_eq ℕ_discrete accept_from_port
apply_sandbox_rules_policy_example =
    apply_sandbox_rules_policy memory_tables memory_tables-IsLawful memory_tables-IsReliable
      by_destination (text "10.0.0.0/8") (λ t. refl) [] demo demo_ip cidr bridge true published []
      [] bare bare-IsNew

sandbox_rules_isolated_example :
    let added =
      (apply_sandbox_rules memory_tables [] demo demo_ip cidr bridge true published bare).0 in
    let removed = (delete_sandbox_rules memory_tables demo demo_ip bridge published bare).0 in
    let chain_of = λ (s : Memory) (t : Table) (c : Text). Dict.lookup c (s t) in
    (chain_of added filter (forward_chain other) ≡ chain_of bare filter (forward_chain other))
    × (chain_of added filter (input_chain other) ≡ chain_of bare filter (input_chain other))
    × (chain_of added nat (text "OUTPUT") ≡ chain_of bare nat (text "OUTPUT"))
    × (chain_of removed filter (forward_chain other) ≡ chain_of bare filter (forward_chain other))
    × (chain_of removed filter (input_chain other) ≡ chain_of bare filter (input_chain other))
    × (chain_of removed nat (text "OUTPUT") ≡ chain_of bare nat (text "OUTPUT"))
sandbox_rules_isolated_example =
    sandbox_rules_isolated memory_tables memory_tables-IsLawful [] demo other demo_ip cidr bridge
      (text "OUTPUT") true published bare hashes_differ

bare-IsUnused : (c : Text) → IsUnused memory_tables bare filter c
unfolding Dict.lookup
bare-IsUnused c d rs h = ground (arith, h)

delete-apply_sandbox_rules_example :
    let t = (apply_sandbox_rules memory_tables [] demo demo_ip cidr bridge true published bare).0 in
    IsNew memory_tables demo
      (delete_sandbox_rules memory_tables demo demo_ip bridge published t).0
      []
      []
unfolding contains
delete-apply_sandbox_rules_example =
    delete-apply_sandbox_rules memory_tables memory_tables-IsLawful memory_tables-IsReliable [] demo
      demo_ip cidr bridge true published [] [] bare bare-IsNew (bare-IsUnused (forward_chain demo))
      (bare-IsUnused (input_chain demo))

-- A host on which the hooks were installed before.
abbrev started : Memory
started filter =
    (forward, accept_established ∷ from_source demo_ip input_hook ∷ []) ∷ (built_in_input, []) ∷ []
started nat = []

ensure_global_chains_heads_example :
    let t = (ensure_global_chains memory_tables [] started).0 in
    (Dict.lookup forward (t filter)
      ≡ some (
          jump forward_hook
          ∷ accept_established
          ∷ accept_marked
          ∷ remove_first (jump forward_hook) (
              remove_first accept_established (
                remove_first accept_marked
                  (accept_established ∷ from_source demo_ip input_hook ∷ [])))))
    × (Dict.lookup built_in_input (t filter)
        ≡ some (jump input_hook ∷ remove_first (jump input_hook) []))
unfolding ensure_global_chains ◌>>◌ each hook_chain hooks_of has_chain contains_chain insert_first
    insert_at remove_first contains Dict.lookup Dict.insert Dict.keys table_eq list_eq ℕ_discrete
    to_upper trim_space
ensure_global_chains_heads_example =
    ensure_global_chains_heads memory_tables memory_tables-IsLawful memory_tables-IsReliable []
      (accept_established ∷ from_source demo_ip input_hook ∷ []) [] started (λ t e. cc) refl refl
      refl refl
