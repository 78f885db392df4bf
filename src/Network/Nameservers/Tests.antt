-- ===== src/Network/Nameservers/Tests.antt =====
-- A file with a comment, a server that is named twice, and one of version 6.
use go_firecracker_container.Base.{
  ◌≡◌, refl, not, true, false, Option, none, some, List, [], ◌∷◌, contains, NoDuplicates, ◌==◌,
  nat_eq, list_eq, if◌then◌else◌, ℕ_discrete,
}
use go_firecracker_container.Base.Text.{Text, text, fields, trim_space, has_prefix, contains_text}
use go_firecracker_container.Network.Nameservers.{
  Addresses, system_nameservers, servers_of_file, collect_servers, server_of_line, cidr_of_field,
  server_field, host_cidr, resolv_conf, systemd_resolv_conf,
}
use go_firecracker_container.Network.Nameservers.Laws.{names, system_nameservers_lem}

-- Every text is an address; one without a colon has version 4.
abbrev texts : Addresses
texts = record {
  Address = Text;
  parse_ip = λ a. some a;
  is_ipv4 = λ a. not (contains_text a (text ":"));
  format_ip = λ a. a;
}

abbrev lines : List Text
lines =
    text "# generated"
    ∷ text ""
    ∷ text "nameserver 1.1.1.1"
    ∷ text "search lan"
    ∷ text "  nameserver fd00::1"
    ∷ text "nameserver  9.9.9.9 # spare"
    ∷ text "nameserver 1.1.1.1"
    ∷ []

abbrev read : Text → Option (List Text)
read path = if path == resolv_conf then some lines else none

runs_nameservers :
    (system_nameservers texts false read ≡ text "1.1.1.1/32" ∷ text "9.9.9.9/32" ∷ [])
    × (system_nameservers texts true read ≡ [])
unfolding system_nameservers servers_of_file collect_servers server_of_line cidr_of_field
    server_field host_cidr contains fields trim_space has_prefix contains_text list_eq ℕ_discrete
runs_nameservers = (refl, refl)

system_nameservers_lem_example :
    let servers = system_nameservers texts false read in
    NoDuplicates servers
    × (contains servers (text "9.9.9.9/32")
        ≡ elim (read (if false then systemd_resolv_conf else resolv_conf)) [
          | none ↦ false
          | some ls ↦ names texts (text "9.9.9.9/32") ls
        ])
system_nameservers_lem_example = system_nameservers_lem texts false read (text "9.9.9.9/32")
