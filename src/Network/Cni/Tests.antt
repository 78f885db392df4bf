-- ===== src/Network/Cni/Tests.antt =====
-- A cache of one line for each address.
use go_firecracker_container.Base.{
  ◌≡◌, refl, not, some, List, [], ◌∷◌, inl, nat_eq, list_eq, ℕ_discrete,
}
use go_firecracker_container.Base.Text.{Text, text, fields, contains_text}
use go_firecracker_container.Model.{message, Result, ok, err}
use go_firecracker_container.Network.Cni.{
  CacheFormat, ipv4_of, first_ipv4, address_in, lookup_fcnet_ipv4, cache_path,
}
use go_firecracker_container.Network.Cni.Laws.{head_or_error, ipv4s, lookup_fcnet_ipv4_lem}

-- Every word is an address; one without a colon has version 4.
abbrev words : CacheFormat
words = record {
  Address = Text;
  decode_ips = λ bytes. inl (fields bytes);
  parse_prefix = λ a. some a;
  is_ipv4 = λ a. not (contains_text a (text ":"));
  format_address = λ a. a;
}

abbrev bytes : Text
bytes = text "fd00::2 10.89.0.18 10.89.0.19"

abbrev read : Text → Result Text
read path = ok bytes

abbrev ips : List Text
ips = text "fd00::2" ∷ text "10.89.0.18" ∷ text "10.89.0.19" ∷ []

runs_lookup :
    (lookup_fcnet_ipv4 words read (text "demo") ≡ ok (text "10.89.0.18"))
    × (lookup_fcnet_ipv4 words read [] ≡ err (message (text "sandbox id is required")))
unfolding lookup_fcnet_ipv4 address_in first_ipv4 ipv4_of fields contains_text list_eq ℕ_discrete
runs_lookup = (refl, refl)

lookup_fcnet_ipv4_lem_example :
    lookup_fcnet_ipv4 words read (text "demo")
    ≡ head_or_error words (cache_path (text "demo")) (ipv4s words ips)
unfolding fields ℕ_discrete list_eq
lookup_fcnet_ipv4_lem_example =
    lookup_fcnet_ipv4_lem words read (text "demo") bytes ips (λ e. cc) refl refl
