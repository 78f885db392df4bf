-- ===== src/Network/BridgeNetfilter.antt =====
-- internal/network/bridge_nf.go: the flags of the kernel that send the packets of a bridge through
-- iptables. Running `modprobe br_netfilter` is an argument.
pub mod Laws
mod Tests
use go_firecracker_container.Base.{
  Bool, true, false, Option, none, some, List, [], ◌∷◌, ◌++◌, ◌==◌, nat_eq, list_eq, if◌then◌else◌,
}
use Prim.Native.String.{String}
use go_firecracker_container.Base.Text.{Text, text, trim_space}
use go_firecracker_container.Model.{Error, message, Result, ok, err}
use go_firecracker_container.Model.Actions.{Action, done, ◌>>◌}
use go_firecracker_container.Machine.{Disk, error_text}

abbrev pub flag_path : String → Text
flag_path name = text "/proc/sys/net/bridge/" ++ text name

abbrev pub wrapped : Text → Option Error → Option Error
wrapped before none = none
wrapped before (some e) = some (message (before ++ (text ": " ++ error_text e)))

-- `err == nil && strings.TrimSpace(string(b)) == want`
unfoldable pub is_set : Text → Result Text → Bool
is_set want (err e) = false
is_set want (ok b) = trim_space b == want

module _ {S : Type 0} (K : Disk S) (modprobe : Action S) where
  unfoldable pub load_module : Text → Action S
  load_module path s =
      let (t, e) = modprobe s in
      let loaded : S × Option Error =
        (t, wrapped (text "missing " ++ (path ++ text " after modprobe")) (K.stat path t)) in
      elim e [
        | some x ↦ (t, wrapped (text "load br_netfilter for " ++ path) (some x))
        | none ↦ loaded
      ]

  unfoldable pub find_flag : Text → Action S
  find_flag path s = elim (K.stat path s) [ none ↦ (s, none) | some e ↦ load_module path s ]

  unfoldable pub write_flag : Text → Text → Action S
  write_flag path want s =
      let (t, e) = K.write_file path (want ++ text "\n") s in
      (t, wrapped (text "set " ++ (path ++ b'=' ∷ want)) e)

  unfoldable pub set_flag : Text → Text → Action S
  set_flag path want s =
      if is_set want (K.read_file path s) then (s, none) else write_flag path want s

  unfoldable pub ensure_proc_flag : Text → Text → Action S
  ensure_proc_flag path want = find_flag path >> set_flag path want

  unfoldable pub ensure_bridge_netfilter : Action S
  ensure_bridge_netfilter = do
    ensure_proc_flag (flag_path "bridge-nf-call-iptables") (text "1")
    ensure_proc_flag (flag_path "bridge-nf-call-ip6tables") (text "1")
