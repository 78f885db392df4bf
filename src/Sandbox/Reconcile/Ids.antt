-- ===== src/Sandbox/Reconcile/Ids.antt =====
-- The ids that are read from the names of cached results.
use mathlib.Core.List.{reverse, reverse-append, reverse-reverse}
use go_firecracker_container.Base.{
  ◌≡◌, ◌≢◌, true, false, some, [], ◌++◌, contains, nat_eq, list_eq, arith,
}
use go_firecracker_container.Base.Text.{Text, text}
use go_firecracker_container.Base.Text.Laws.{has_prefix-append, trim_prefix-append}
use go_firecracker_container.Sandbox.Reconcile.{has_suffix, trim_suffix, fcnet_id}

has_suffix-append : (s p : Text) → has_suffix (s ++ p) p ≡ true
unfolding has_suffix
has_suffix-append s p = rw (reverse-append s p) (has_prefix-append (reverse p) (reverse s))

trim_suffix-append : (s p : Text) → trim_suffix (s ++ p) p ≡ s
unfolding trim_suffix
trim_suffix-append s p =
    rw (reverse-append s p, trim_prefix-append (reverse p) (reverse s)) (reverse-reverse s)

abbrev pub cached_name : Text → Text
cached_name id = text "fcnet-" ++ (id ++ text "-veth0")

-- The id is read back from the name of the file that the CNI plugin caches for it, if the id is not
-- empty and has no newline.
pub fcnet_id-cached_name :
    (id : Text) → id ≢ [] → contains id b'\n' ≡ false → fcnet_id (cached_name id) ≡ some id
unfolding fcnet_id
fcnet_id-cached_name id given plain = ground (
  arith,
  has_prefix-append (text "fcnet-") (id ++ text "-veth0"),
  trim_prefix-append (text "fcnet-") (id ++ text "-veth0"),
  has_suffix-append id (text "-veth0"),
  trim_suffix-append id (text "-veth0"),
)
