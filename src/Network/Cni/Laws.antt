-- ===== src/Network/Cni/Laws.antt =====
-- Which address of the cache is taken.
use go_firecracker_container.Base.{
  ◌≡◌, refl, ◌∙◌, ◌≢◌, Option, none, some, List, [], ◌∷◌, ◌==◌, nat_eq, list_eq, inl, inr,
  Bool-cases, Option-cases, eq_of_==,
}
use go_firecracker_container.Base.Text.{Text}
use go_firecracker_container.Model.{Result, ok, err}
use go_firecracker_container.Network.Cni.{
  CacheFormat, ipv4_of, first_ipv4, address_in, lookup_fcnet_ipv4, cache_path, no_ipv4,
}

module _ (F : CacheFormat) where
  abbrev add_ipv4 : Option Text → List Text → List Text
  add_ipv4 none ips = ips
  add_ipv4 (some ip) ips = ip ∷ ips

  -- All IPv4 addresses among the entries.
  abbrev pub ipv4s : List Text → List Text
  ipv4s [] = []
  ipv4s (a ∷ rest) = add_ipv4 (ipv4_of F (F.parse_prefix a)) (ipv4s rest)

  abbrev pub head_or_error : Text → List Text → Result Text
  head_or_error path [] = err (no_ipv4 path)
  head_or_error path (ip ∷ rest) = ok ip

  first_ipv4-head :
      (path : Text) (ips : List Text) → first_ipv4 F path ips ≡ head_or_error path (ipv4s ips)
  unfolding first_ipv4
  first_ipv4-head path [] = refl
  first_ipv4-head path (a ∷ rest) = elim (Option-cases (ipv4_of F (F.parse_prefix a))) [
    | inl e ↦ rw (e, first_ipv4) (first_ipv4-head path rest)
    | inr (ip, e) ↦ rw (e, first_ipv4) refl
  ]

  decoded :
      (path bytes : Text) (ips : List Text)
      → F.decode_ips bytes ≡ inl ips
      → address_in F path (ok bytes) ≡ first_ipv4 F path ips
  unfolding address_in
  decoded path bytes ips k = rw (k, address_in) refl

-- For an id and a cache that can be read, the address is the first of all IPv4 addresses among the
-- entries, whatever else they hold, and an error if there is none.
pub lookup_fcnet_ipv4_lem :
    (F : CacheFormat) (read : Text → Result Text) (id bytes : Text) (ips : List Text)
    → id ≢ []
    → read (cache_path id) ≡ ok bytes
    → F.decode_ips bytes ≡ inl ips
    → lookup_fcnet_ipv4 F read id ≡ head_or_error F (cache_path id) (ipv4s F ips)
unfolding lookup_fcnet_ipv4
lookup_fcnet_ipv4_lem F read id bytes ips named h k = elim (Bool-cases (id == [])) [
  | inl e ↦ absurd (named (eq_of_== id [] e))
  | inr e ↦
      rw (e, h) (decoded F (cache_path id) bytes ips k ∙ first_ipv4-head F (cache_path id) ips)
]
