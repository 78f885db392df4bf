-- ===== src/Network/Dnat/Tests.antt =====
-- The published ports over the table in memory.
use go_firecracker_container.Base.{
  ◌≡◌, refl, none, some, List, [], ◌∷◌, ◌++◌, nat_eq, list_eq, contains, ℕ_discrete, if◌then◌else◌,
  ◌==◌,
}
use go_firecracker_container.Base.Text.{Text, text, trim_space, to_lower, has_prefix}
use go_firecracker_container.Base.Dict
use go_firecracker_container.Base.Integer.{pos}
use go_firecracker_container.Base.Decimal.{format_int}
use go_firecracker_container.Network.Dnat.{
  delete_host_port_dnat_by_sandbox, HostPortForward, dnat_rule, output_rule, forward_proto,
  prerouting, output, apply_host_port_dnat, delete_host_port_dnat,
}
use go_firecracker_container.Network.Tables.{IpTables, filter, nat, table_eq, Rule, add_unique}
use go_firecracker_container.Model.Actions.{◌>>◌, each}
use go_firecracker_container.Network.Tables.Memory.{
  Memory, memory_tables, memory_tables-IsLawful, memory_tables-IsReliable,
}
use go_firecracker_container.Network.Dnat.Publish.{Holds, delete-apply_host_port_dnat}
use go_firecracker_container.Network.Dnat.Tagged.{
  is_quoted, delete_host_port_dnat_by_sandbox_quoted,
}

abbrev bare : Memory
bare filter = []
bare nat = (prerouting, []) ∷ (output, []) ∷ []

abbrev web : List HostPortForward
web = record { host_port = pos 8080; container_port = pos 80; protocol = text " TCP " } ∷ []

abbrev ip : Text
ip = text "10.89.0.18"

abbrev published : Memory
published = (apply_host_port_dnat memory_tables (text "demo-2") ip web bare).0

prerouting_rules_published :
    Dict.lookup prerouting (published nat)
    ≡ some (
        dnat_rule
          (text "demo-2")
          ip
          (record { host_port = pos 8080; container_port = pos 80; protocol = text "tcp" })
        ∷ [])
unfolding apply_host_port_dnat each ◌>>◌ dnat_rule output_rule forward_proto Dict.lookup Dict.insert
    table_eq list_eq ℕ_discrete add_unique contains format_int to_lower trim_space
prerouting_rules_published = refl

abbrev before : Text
before = text "-A PREROUTING -p tcp -m comment "

abbrev listed_rule : Rule
listed_rule =
    text "-p"
    ∷ text "tcp"
    ∷ text "-m"
    ∷ text "comment"
    ∷ text "--comment"
    ∷ text "SBX:demo-2"
    ∷ text "-j"
    ∷ text "DNAT"
    ∷ []

delete-apply_host_port_dnat_example :
    ((apply_host_port_dnat memory_tables (text "demo-2") ip web bare).1 ≡ none)
    × Holds memory_tables memory_tables-IsLawful memory_tables-IsReliable
        (delete_host_port_dnat memory_tables (text "demo-2") ip web published).0
        []
        []
unfolding Dict.lookup contains list_eq ℕ_discrete
delete-apply_host_port_dnat_example =
    delete-apply_host_port_dnat memory_tables memory_tables-IsLawful memory_tables-IsReliable
      (text "demo-2") ip web bare [] [] (record { prerouting_rules = refl; output_rules = refl })
      (refl, tt) (refl, tt)

abbrev pre : List Text
pre = (before ++ text "--comment \"SBX:demo-2\" -j DNAT") ∷ text "-P PREROUTING ACCEPT" ∷ []

abbrev out : List Text
out = text "-P OUTPUT ACCEPT" ∷ []

-- A host whose nat table lists these lines.
abbrev listed : IpTables
listed = record memory_tables { list = λ s t c. some (if c == prerouting then pre else out) }

delete_host_port_dnat_by_sandbox_quoted_example :
    delete_host_port_dnat_by_sandbox listed (text "demo-2") published ≡ (published, none)
unfolding is_quoted has_prefix ℕ_discrete list_eq
delete_host_port_dnat_by_sandbox_quoted_example =
    delete_host_port_dnat_by_sandbox_quoted listed (text "demo-2") published pre out refl refl refl
      refl
