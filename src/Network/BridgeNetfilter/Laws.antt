-- ===== src/Network/BridgeNetfilter/Laws.antt =====
-- If the flags are ensured without an error, they are set.
use mathlib.Core.Path.{subst}
use go_firecracker_container.Base.{
  ◌≡◌, ◌≢◌, refl, sym, ap, true, false, none, inl, inr, Bool-cases, Option-cases, arith, ◌==◌,
  nat_eq, list_eq, ℕ_discrete,
}
use go_firecracker_container.Base.Text.{Text, text, trim_space}
use go_firecracker_container.Model.{ok, Result-cases}
use go_firecracker_container.Model.Actions.{Action, seq_succeeds}
use go_firecracker_container.Machine.{Disk}
use go_firecracker_container.Network.BridgeNetfilter.{
  flag_path, is_set, write_flag, find_flag, set_flag, load_module, ensure_proc_flag,
  ensure_bridge_netfilter,
}

-- A file that is written without an error holds what was written, and another file what it held.
-- Loading a module changes no flag that is there.
pub record KeepsFlags {S : Type 0} (K : Disk S) (modprobe : Action S) : Type 0 where
  pub read-write :
      (s : S) (p b : Text)
      → (K.write_file p b s).1 ≡ none
      → K.read_file p (K.write_file p b s).0 ≡ ok b
  pub read-write_other :
      (s : S) (p q b : Text) → p ≢ q → K.read_file q (K.write_file p b s).0 ≡ K.read_file q s
  pub read-modprobe :
      (s : S) (q b : Text) → K.read_file q s ≡ ok b → K.read_file q (modprobe s).0 ≡ ok b

false_is_not_true : false ≢ true
false_is_not_true h = cc

flags_differ : flag_path "bridge-nf-call-ip6tables" ≢ flag_path "bridge-nf-call-iptables"
unfolding list_eq ℕ_discrete
flags_differ h = false_is_not_true (ap (λ path. path == flag_path "bridge-nf-call-iptables") h)

-- The file of a flag that is "1".
abbrev pub IsOn : {S : Type 0} → Disk S → Text → S → Type 0
IsOn K path s = is_set (text "1") (K.read_file path s) ≡ true

module _ {S : Type 0} (K : Disk S) (modprobe : Action S) (L : KeepsFlags K modprobe) where
  set_flag-IsOn :
      (path : Text) (s : S)
      → (set_flag K modprobe path (text "1") s).1 ≡ none
      → IsOn K path (set_flag K modprobe path (text "1") s).0
  unfolding set_flag write_flag is_set trim_space list_eq
  set_flag-IsOn path s h = elim (Bool-cases (is_set (text "1") (K.read_file path s))) [
    | inl p ↦ rw (p, set_flag) p
    | inr p ↦ elim (Option-cases (K.write_file path (text "1\n") s).1) [
      | inl q ↦ rw (p, set_flag, L.read-write s path (text "1\n") q) refl
      | inr (e, q) ↦ absurd (ground (arith, h, p, q))
    ]
  ]

  set_flag-keeps :
      (path other : Text) (s : S)
      → path ≢ other
      → IsOn K other s
      → IsOn K other (set_flag K modprobe path (text "1") s).0
  unfolding set_flag write_flag
  set_flag-keeps path other s differ on =
      elim (Bool-cases (is_set (text "1") (K.read_file path s))) [
        | inl p ↦ rw (p, set_flag) on
        | inr p ↦ rw (p, set_flag, L.read-write_other s path other (text "1\n") differ) on
      ]

  modprobe-keeps : (other : Text) (s : S) → IsOn K other s → IsOn K other (modprobe s).0
  unfolding is_set
  modprobe-keeps other s on = elim (Result-cases (K.read_file other s)) [
    | inl (b, p) ↦ rw (L.read-modprobe s other b p) (subst (λ r. is_set (text "1") r ≡ true) p on)
    | inr (e, p) ↦ absurd (ground (arith, on, p))
  ]

  find_flag-keeps :
      (path other : Text) (s : S) → IsOn K other s → IsOn K other (find_flag K modprobe path s).0
  unfolding find_flag load_module
  find_flag-keeps path other s on = elim (Option-cases (K.stat path s)) [
    | inl p ↦ rw (p, find_flag) on
    | inr (e, p) ↦ elim (Option-cases (modprobe s).1) [
      | inl q ↦ rw (p, find_flag, q, load_module) (modprobe-keeps other s on)
      | inr (x, q) ↦ rw (p, find_flag, q, load_module) (modprobe-keeps other s on)
    ]
  ]

  ensure_proc_flag-IsOn :
      (path : Text) (s : S)
      → (ensure_proc_flag K modprobe path (text "1") s).1 ≡ none
      → IsOn K path (ensure_proc_flag K modprobe path (text "1") s).0
  unfolding ensure_proc_flag
  ensure_proc_flag-IsOn path s h =
      let (found, set, run) =
        seq_succeeds (find_flag K modprobe path) (set_flag K modprobe path (text "1")) s h in
      subst (λ r. IsOn K path r.0) (sym run) (set_flag-IsOn path _ set)

  ensure_proc_flag-keeps :
      (path other : Text) (s : S)
      → path ≢ other
      → (ensure_proc_flag K modprobe path (text "1") s).1 ≡ none
      → IsOn K other s
      → IsOn K other (ensure_proc_flag K modprobe path (text "1") s).0
  unfolding ensure_proc_flag
  ensure_proc_flag-keeps path other s differ h on =
      let (found, set, run) =
        seq_succeeds (find_flag K modprobe path) (set_flag K modprobe path (text "1")) s h in
      subst (λ r. IsOn K other r.0) (sym run)
        (set_flag-keeps path other _ differ (find_flag-keeps path other s on))

  -- If `EnsureBridgeNetfilter` succeeds, both flags are set to "1", whether they were before, the
  -- module was loaded or the files were written.
  pub ensure_bridge_netfilter_sets :
      (s : S)
      → (ensure_bridge_netfilter K modprobe s).1 ≡ none
      → IsOn K (flag_path "bridge-nf-call-iptables") (ensure_bridge_netfilter K modprobe s).0
        × IsOn K (flag_path "bridge-nf-call-ip6tables") (ensure_bridge_netfilter K modprobe s).0
  unfolding ensure_bridge_netfilter
  ensure_bridge_netfilter_sets s h =
      let ip4 = flag_path "bridge-nf-call-iptables" in
      let ip6 = flag_path "bridge-nf-call-ip6tables" in
      let (first, second, run) =
        seq_succeeds (ensure_proc_flag K modprobe ip4 (text "1"))
          (ensure_proc_flag K modprobe ip6 (text "1")) s h in
      let t = (ensure_proc_flag K modprobe ip4 (text "1") s).0 in
      subst (λ r. IsOn K ip4 r.0 × IsOn K ip6 r.0) (sym run)
        (
          ensure_proc_flag-keeps ip6 ip4 t flags_differ second (ensure_proc_flag-IsOn ip4 s first),
          ensure_proc_flag-IsOn ip6 t second,
        )
