-- ===== src/Network/Nameservers.antt =====
-- `systemNameservers` of internal/network/firewall.go. The files of the host, as lines, and the
-- parser of `net` are arguments.
pub mod Laws
mod Tests
use go_firecracker_container.Base.{
  Bool, true, false, not, ◌||◌, Option, none, some, List, [], ◌∷◌, ◌++◌, contains, ◌==◌, nat_eq,
  list_eq, if◌then◌else◌,
}
use go_firecracker_container.Base.Text.{Text, text, trim_space, has_prefix, fields}

-- `net.ParseIP`, `To4() != nil` and `String`
pub record Addresses : Type 1 where
  pub Address : Type 0
  pub parse_ip : Text → Option Address
  pub is_ipv4 : Address → Bool
  pub format_ip : Address → Text

-- `fields[1]` if there are two fields and the first one is "nameserver"
unfoldable pub server_field : List Text → Option Text
server_field (a ∷ b ∷ rest) = if a == text "nameserver" then some b else none
server_field _ = none

abbrev pub resolv_conf : Text
resolv_conf = text "/etc/resolv.conf"

abbrev pub systemd_resolv_conf : Text
systemd_resolv_conf = text "/run/systemd/resolve/resolv.conf"

module _ (A : Addresses) where
  open A use {Address, parse_ip, is_ipv4, format_ip}

  -- An address of version 4, with its mask.
  unfoldable pub host_cidr : Option Address → Option Text
  host_cidr none = none
  host_cidr (some ip) = if is_ipv4 ip then some (format_ip ip ++ text "/32") else none

  unfoldable pub cidr_of_field : Option Text → Option Text
  cidr_of_field none = none
  cidr_of_field (some server) = host_cidr (parse_ip server)

  -- What one line of the file names.
  unfoldable pub server_of_line : Text → Option Text
  server_of_line raw =
      let line = trim_space raw in
      if line == [] || has_prefix line (text "#")
      then none
      else cidr_of_field (server_field (fields line))

  -- The loop over the lines; `seen` holds what was appended so far.
  unfoldable pub collect_servers : List Text → List Text → List Text
  collect_servers seen [] = []
  collect_servers seen (line ∷ lines) =
      let skipped = collect_servers seen lines in
      elim (server_of_line line) [
        | none ↦ skipped
        | some s ↦
            let more = collect_servers (s ∷ seen) lines in
            if contains seen s then skipped else s ∷ more
      ]

  unfoldable pub servers_of_file : Option (List Text) → List Text
  servers_of_file none = []
  servers_of_file (some lines) = collect_servers [] lines

  -- `has_systemd` tells whether the file of systemd is there and is no directory; `read` opens a
  -- file, `none` if that fails.
  unfoldable pub system_nameservers : Bool → (Text → Option (List Text)) → List Text
  system_nameservers has_systemd read =
      servers_of_file (read (if has_systemd then systemd_resolv_conf else resolv_conf))
