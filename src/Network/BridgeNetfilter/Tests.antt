-- ===== src/Network/BridgeNetfilter/Tests.antt =====
-- The flags of a host in memory.
use go_firecracker_container.Base.{refl, none, [], ◌∷◌, nat_eq, list_eq, ℕ_discrete, arith}
use go_firecracker_container.Base.Text.{text, trim_space}
use go_firecracker_container.Base.Dict
use go_firecracker_container.Model.Actions.{Action, ◌>>◌}
use go_firecracker_container.Machine.Memory.{Box, empty_box, box_disk}
use go_firecracker_container.Network.BridgeNetfilter.{
  flag_path, is_set, ensure_bridge_netfilter, ensure_proc_flag, find_flag, set_flag, write_flag,
}
use go_firecracker_container.Network.BridgeNetfilter.Laws.{
  KeepsFlags, IsOn, ensure_bridge_netfilter_sets,
}

-- The module is there: loading it changes nothing.
abbrev load_br_netfilter : Action Box
load_br_netfilter s = (s, none)

box_disk-KeepsFlags : KeepsFlags box_disk load_br_netfilter
box_disk-KeepsFlags = record {
  read-write = λ s p b h. ground (arith, Dict.lookup-insert p p b s.files);
  read-write_other = λ s p q b differ. ground (arith, differ, Dict.lookup-insert q p b s.files);
  read-modprobe = λ s q b h. h;
}

-- A host whose flags are "0".
abbrev off_box : Box
off_box = record empty_box {
  files =
      (flag_path "bridge-nf-call-iptables", text "0")
      ∷ (flag_path "bridge-nf-call-ip6tables", text "0")
      ∷ [];
}

ensure_bridge_netfilter_sets_example :
    let s = (ensure_bridge_netfilter box_disk load_br_netfilter off_box).0 in
    IsOn box_disk (flag_path "bridge-nf-call-iptables") s
    × IsOn box_disk (flag_path "bridge-nf-call-ip6tables") s
unfolding ensure_bridge_netfilter ensure_proc_flag find_flag set_flag write_flag is_set ◌>>◌
    Dict.lookup list_eq ℕ_discrete trim_space Dict.insert
ensure_bridge_netfilter_sets_example =
    ensure_bridge_netfilter_sets box_disk load_br_netfilter box_disk-KeepsFlags off_box refl
