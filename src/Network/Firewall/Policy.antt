-- ===== src/Network/Firewall/Policy.antt =====
-- What the installed chains decide. A chain is read as iptables reads it: the first rule that
-- matches a packet decides, by its last argument. Which rules match a packet is a parameter.
use mathlib.Core.List.{append_assoc, append-nil}
use mathlib.Core.Option
use go_firecracker_container.Base.{
  ◌≡◌, refl, ◌∙◌, ap, Bool, true, false, ◌||◌, ◌&&◌, Option, none, some, List, [], ◌∷◌, ◌++◌, map,
  any, contains, nat_eq, list_eq, concat_map, arith, if◌then◌else◌, Bool-cases, All, All-append,
  inl, inr,
}
use go_firecracker_container.Base.Text.{Text, text}
use go_firecracker_container.Network.Tables.{
  IpTables, IsLawful, IsReliable, filter, Rule, add_unique,
}
use go_firecracker_container.Network.Firewall.{
  PublishedPort, accept_established, reject_local, reject_to, private_networks, accept_all,
  reject_all, accept_from_port, forward_chain, input_chain, apply_sandbox_rules, jump,
}
use go_firecracker_container.Network.Firewall.View.{add_all}
use go_firecracker_container.Network.Firewall.Chains.{dns_to, dns_rules, forward_rules, input_rules}
use go_firecracker_container.Network.Firewall.Install.{IsNew, apply_sandbox_rules_installs}

abbrev pub accepted : Option Text
accepted = some (text "ACCEPT")

abbrev pub rejected : Option Text
rejected = some (text "REJECT")

-- The target of a rule, its last argument.
abbrev pub target : Rule → Text
target [] = []
target (w ∷ []) = w
target (w ∷ x ∷ ws) = target (x ∷ ws)

module _ {P : Type 0} (matches : Rule → P → Bool) (p : P) where
  abbrev pub verdict : List Rule → Option Text
  verdict [] = none
  verdict (r ∷ rs) = if matches r p then some (target r) else verdict rs

  verdict-append :
      (rs qs : List Rule)
      → verdict (rs ++ qs) ≡ (if any (λ r. matches r p) rs then verdict rs else verdict qs)
  verdict-append [] qs = refl
  verdict-append (r ∷ rs) qs = ground (arith, verdict-append rs qs)

  miss_of_contains :
      (r : Rule) (rs : List Rule)
      → contains rs r ≡ true
      → any (λ q. matches q p) rs ≡ false
      → matches r p ≡ false
  unfolding contains
  miss_of_contains r [] h miss = cc
  miss_of_contains r (q ∷ rs) h miss = ground (arith, miss_of_contains r rs)

  verdict-repeat :
      (r : Rule) (rs more : List Rule)
      → contains rs r ≡ true
      → verdict (rs ++ more) ≡ verdict (rs ++ r ∷ more)
  verdict-repeat r rs more h =
      ground (arith, verdict-append rs more, verdict-append rs (r ∷ more), miss_of_contains r rs h)

  -- Rules that are not added again do not change what a chain decides.
  verdict-add_all : (more rs : List Rule) → verdict (add_all more rs) ≡ verdict (rs ++ more)
  unfolding add_unique
  verdict-add_all [] rs = rw append-nil
  verdict-add_all (r ∷ more) rs =
      verdict-add_all more (add_unique r rs) ∙ elim (Bool-cases (contains rs r)) [
        | inl old ↦ rw (old, add_unique) (verdict-repeat r rs more old)
        | inr new ↦ rw (new, add_unique) (rw append_assoc)
      ]

  abbrev matched : List Rule → Bool
  matched = any (λ r. matches r p)

  -- A block of rules with one target.
  verdict-block :
      (t : Text) (rs qs : List Rule)
      → All (λ r. target r ≡ t) rs
      → verdict (rs ++ qs) ≡ (if matched rs then some t else verdict qs)
  verdict-block t [] qs h = refl
  verdict-block t (r ∷ rs) qs (e, h) = ground (arith, verdict-block t rs qs h)

  -- The policy for what leaves a sandbox.
  abbrev pub forward_policy : List Text → Text → Bool → Option Text
  forward_policy nameservers cidr egress =
      if matches accept_established p || egress && any (λ r. matches r p) (dns_rules nameservers)
      then accepted
      else if matches reject_local p || any (λ c. matches (reject_to c) p) (cidr ∷ private_networks)
      then rejected
      else if egress
      then accepted
      else rejected

  -- The policy for what a sandbox sends to the host.
  abbrev pub input_policy : List PublishedPort → Option Text
  input_policy ports =
      if matches accept_established p || any (λ q. matches (accept_from_port q) p) ports
      then accepted
      else rejected

-- The rules of a block have the same target.
dns_to-accepts :
    (nameservers : List Text) → All (λ r. target r ≡ text "ACCEPT") (concat_map dns_to nameservers)
dns_to-accepts [] = tt
dns_to-accepts (n ∷ ns) = (refl, (refl, dns_to-accepts ns))

dns_rules-accepts :
    (nameservers : List Text) → All (λ r. target r ≡ text "ACCEPT") (dns_rules nameservers)
dns_rules-accepts nameservers =
    All-append _ (concat_map dns_to nameservers) _ (dns_to-accepts nameservers) (refl, (refl, tt))

rejects-reject : (cidrs : List Text) → All (λ r. target r ≡ text "REJECT") (map reject_to cidrs)
rejects-reject [] = tt
rejects-reject (c ∷ cidrs) = (refl, rejects-reject cidrs)

ports-accept :
    (ports : List PublishedPort) → All (λ r. target r ≡ text "ACCEPT") (map accept_from_port ports)
unfolding accept_from_port
ports-accept [] = tt
ports-accept (q ∷ ports) = (refl, ports-accept ports)

module _ {P : Type 0} (matches : Rule → P → Bool) (p : P)
    (every : (t : Text) → matches (jump t) p ≡ true) where
  verdict-blocks :
      (dns rejects : List Rule) (egress : Bool)
      → All (λ r. target r ≡ text "ACCEPT") dns
      → All (λ r. target r ≡ text "REJECT") rejects
      → verdict matches p (
          (accept_established ∷ [])
          ++ ((if egress then dns else [])
              ++ ((reject_local ∷ [])
                  ++ (rejects ++ ((if egress then accept_all else reject_all) ∷ [])))))
        ≡ (if matches accept_established p || egress && matched matches p dns
            then accepted
            else if matches reject_local p || matched matches p rejects
            then rejected
            else if egress
            then accepted
            else rejected)
  verdict-blocks dns rejects true h k = ground (
    arith,
    verdict-block matches p (text "ACCEPT") dns (reject_local ∷ (rejects ++ (accept_all ∷ []))) h,
    verdict-block matches p (text "REJECT") rejects (accept_all ∷ []) k,
    every (text "ACCEPT"),
  )
  verdict-blocks dns rejects false h k = ground (
    arith,
    verdict-block matches p (text "REJECT") rejects (reject_all ∷ []) k,
    every (text "REJECT"),
  )

  verdict-forward_rules :
      (nameservers : List Text) (cidr : Text) (egress : Bool)
      → verdict matches p (forward_rules nameservers cidr egress)
        ≡ forward_policy matches p nameservers cidr egress
  verdict-forward_rules nameservers cidr egress =
      verdict-blocks (dns_rules nameservers) (map reject_to (cidr ∷ private_networks)) egress
        (dns_rules-accepts nameservers) (rejects-reject (cidr ∷ private_networks))

  any-map :
      (ports : List PublishedPort)
      → matched matches p (map accept_from_port ports)
        ≡ any (λ q. matches (accept_from_port q) p) ports
  any-map [] = refl
  any-map (q ∷ ports) = rw (any-map ports)

  verdict-input_rules :
      (ports : List PublishedPort)
      → verdict matches p (input_rules ports) ≡ input_policy matches p ports
  verdict-input_rules ports = ground (
    arith,
    verdict-block matches p (text "ACCEPT") (map accept_from_port ports) (reject_all ∷ [])
        (ports-accept ports),
    any-map ports,
    every (text "REJECT"),
  )

-- After `ApplySandboxRules` for a new sandbox, with iptables reliable and rules without a condition
-- matching every packet: the forward chain decides every packet by `forward_policy`, and the input
-- chain by `input_policy`.
pub apply_sandbox_rules_policy :
    (I : IpTables)
    → IsLawful I
    → IsReliable I
    → {P : Type 0} (matches : Rule → P → Bool) (p : P) → ((t : Text) → matches (jump t) p ≡ true)
    → (nameservers : List Text) (id ip cidr bridge : Text) (egress : Bool)
      (ports : List PublishedPort) (hook input : List Rule) (s : I.State)
    → IsNew I id s hook input
    → let t = (apply_sandbox_rules I nameservers id ip cidr bridge egress ports s).0 in
      (Option.map (verdict matches p) (I.rules t filter (forward_chain id))
        ≡ some (forward_policy matches p nameservers cidr egress))
      × (Option.map (verdict matches p) (I.rules t filter (input_chain id))
          ≡ some (input_policy matches p ports))
apply_sandbox_rules_policy I L R matches p every nameservers id ip cidr bridge egress ports hook
      input s n =
    let shown =
      (apply_sandbox_rules_installs I L R nameservers id ip cidr bridge egress ports hook input s
        n).1 in
    (
      ap (Option.map (verdict matches p)) shown.to
          ∙ ap some (
              verdict-add_all matches p (forward_rules nameservers cidr egress) []
              ∙ verdict-forward_rules matches p every nameservers cidr egress),
      ap (Option.map (verdict matches p)) shown.from
          ∙ ap some (
              verdict-add_all matches p (input_rules ports) []
              ∙ verdict-input_rules matches p every ports),
    )
