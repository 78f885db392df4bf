-- ===== src/Network/Cni.antt =====
-- internal/network/fcnet_cache.go: the address of a sandbox, as the CNI plugin cached it. Reading a
-- file, its JSON and the parser of `net/netip` are arguments. An id is a plain element of a path.
pub mod Laws
mod Tests
use go_firecracker_container.Base.{
  Bool, true, false, Option, none, some, List, [], ◌∷◌, ◌++◌, ◌==◌, nat_eq, list_eq, ◌⊎◌, inl, inr,
  if◌then◌else◌,
}
use go_firecracker_container.Base.Text.{Text, text}
use go_firecracker_container.Base.Paths.{join_path}
use go_firecracker_container.Model.{Error, message, Result, ok, err}

-- `netip.ParsePrefix` and `Addr`, `Is4`, `String`. `decode_ips` gives the field `address` of each
-- entry of `result.ips`, or the text of the error.
pub record CacheFormat : Type 1 where
  pub Address : Type 0
  pub decode_ips : Text → List Text ⊎ Text
  pub parse_prefix : Text → Option Address
  pub is_ipv4 : Address → Bool
  pub format_address : Address → Text

abbrev pub cache_path : Text → Text
cache_path id =
    join_path
      (text "/var/lib/cni" ∷ id ∷ text "results" ∷ (text "fcnet-" ++ (id ++ text "-veth0")) ∷ [])

abbrev pub parse_failed : Text → Text → Error
parse_failed path reason = message (text "parse cni cache " ++ (path ++ (text ": " ++ reason)))

abbrev pub no_ipv4 : Text → Error
no_ipv4 path = message (text "no ipv4 in cni cache: " ++ path)

module _ (F : CacheFormat) where
  open F use {Address, decode_ips, parse_prefix, is_ipv4, format_address}

  unfoldable pub ipv4_of : Option Address → Option Text
  ipv4_of none = none
  ipv4_of (some addr) = if is_ipv4 addr then some (format_address addr) else none

  -- The loop over the addresses.
  unfoldable pub first_ipv4 : Text → List Text → Result Text
  first_ipv4 path [] = err (no_ipv4 path)
  first_ipv4 path (a ∷ rest) =
      let later = first_ipv4 path rest in
      elim (ipv4_of (parse_prefix a)) [ none ↦ later | some ip ↦ ok ip ]

  unfoldable pub address_in : Text → Result Text → Result Text
  address_in path (err e) = err e
  address_in path (ok bytes) = elim (decode_ips bytes) [
    | inl ips ↦ first_ipv4 path ips
    | inr reason ↦ err (parse_failed path reason)
  ]

  unfoldable pub lookup_fcnet_ipv4 : (Text → Result Text) → Text → Result Text
  lookup_fcnet_ipv4 read id =
      if id == []
      then err (message (text "sandbox id is required"))
      else address_in (cache_path id) (read (cache_path id))
