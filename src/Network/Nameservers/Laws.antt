-- ===== src/Network/Nameservers/Laws.antt =====
-- Which nameservers a file names.
use go_firecracker_container.Base.{
  ◌≡◌, refl, Bool, false, not, ◌&&◌, Option, none, some, List, [], ◌∷◌, any, contains, NoDuplicates,
  ◌==◌, nat_eq, list_eq, arith, if◌then◌else◌, Bool-cases, Option-cases, inl, inr,
}
use go_firecracker_container.Base.Text.{Text}
use go_firecracker_container.Network.Nameservers.{
  Addresses, server_of_line, collect_servers, servers_of_file, system_nameservers, resolv_conf,
  systemd_resolv_conf,
}

abbrev pub is_server : Text → Option Text → Bool
is_server s none = false
is_server s (some t) = s == t

module _ (A : Addresses) where
  abbrev pub names : Text → List Text → Bool
  names s = any (λ line. is_server s (server_of_line A line))

  contains-collect_servers :
      (seen lines : List Text) (s : Text)
      → contains (collect_servers A seen lines) s ≡ (not (contains seen s) && names s lines)
  unfolding collect_servers contains
  contains-collect_servers seen [] s = ground arith
  contains-collect_servers seen (line ∷ lines) s = elim (Option-cases (server_of_line A line)) [
    | inl e ↦ rw (e, collect_servers) (ground (arith, e, contains-collect_servers seen lines s))
    | inr (t, e) ↦
        rw (e, collect_servers)
          (ground (
            arith,
            e,
            contains-collect_servers seen lines s,
            contains-collect_servers (t ∷ seen) lines s,
          ))
  ]

  collect_servers-NoDuplicates :
      (seen lines : List Text) → NoDuplicates (collect_servers A seen lines)
  unfolding collect_servers contains
  collect_servers-NoDuplicates seen [] = tt
  collect_servers-NoDuplicates seen (line ∷ lines) = elim (Option-cases (server_of_line A line)) [
    | inl e ↦ rw (e, collect_servers) (collect_servers-NoDuplicates seen lines)
    | inr (t, e) ↦
        rw (e, collect_servers)
          (elim (Bool-cases (contains seen t)) [
            | inl old ↦ rw old (collect_servers-NoDuplicates seen lines)
            | inr new ↦ rw new (
              ground (arith, contains-collect_servers (t ∷ seen) lines t),
              collect_servers-NoDuplicates (t ∷ seen) lines,
            )
          ])
  ]

-- The nameservers are those that some line of the file names, each once, and none if the file cannot
-- be read; the file of systemd is preferred.
pub system_nameservers_lem :
    (A : Addresses) (has_systemd : Bool) (read : Text → Option (List Text)) (s : Text)
    → let servers = system_nameservers A has_systemd read in
      NoDuplicates servers
      × (contains servers s
          ≡ elim (read (if has_systemd then systemd_resolv_conf else resolv_conf)) [
            | none ↦ false
            | some lines ↦ names A s lines
          ])
unfolding system_nameservers servers_of_file contains
system_nameservers_lem A has_systemd read s =
    elim (Option-cases (read (if has_systemd then systemd_resolv_conf else resolv_conf))) [
      | inl e ↦ rw e (tt, refl)
      | inr (lines, e) ↦
          rw e (collect_servers-NoDuplicates A [] lines, contains-collect_servers A [] lines s)
    ]
