-- ===== src/Network/Firewall/Chains.antt =====
-- The rules that `ApplySandboxRules` installs.
use go_firecracker_container.Base.{
  ◌≡◌, refl, Bool, true, false, List, [], ◌∷◌, ◌++◌, map, concat_map, if◌then◌else◌,
}
use go_firecracker_container.Base.Text.{Text}
use go_firecracker_container.Network.Tables.{IpTables, IsLawful, IsReliable, Rule, add_unique}
use go_firecracker_container.Model.Actions.{Action, done, ◌>>◌, each}
use go_firecracker_container.Network.Firewall.{
  PublishedPort, forward_chain, input_chain, try_append, accept_established, accept_dns_to,
  accept_dns, reject_local, reject_to, private_networks, accept_all, reject_all, accept_from_port,
  allow_dns, allow_name_service, fill_forward_chain, fill_input_chain,
}
use go_firecracker_container.Network.Firewall.View.{
  add_all, View, Leads, Leads-seq, append-forward_chain, append-input_chain,
}

abbrev pub dns_to : Text → List Rule
dns_to server = accept_dns_to server "udp" ∷ accept_dns_to server "tcp" ∷ []

abbrev pub dns_rules : List Text → List Rule
dns_rules nameservers = concat_map dns_to nameservers ++ (accept_dns "udp" ∷ accept_dns "tcp" ∷ [])

-- What leaves a sandbox, in the order of the rules.
abbrev pub forward_rules : List Text → Text → Bool → List Rule
forward_rules nameservers cidr egress =
    (accept_established ∷ [])
    ++ ((if egress then dns_rules nameservers else [])
        ++ ((reject_local ∷ [])
            ++ (map reject_to (cidr ∷ private_networks)
                ++ ((if egress then accept_all else reject_all) ∷ []))))

-- What a sandbox may send to the host.
abbrev pub input_rules : List PublishedPort → List Rule
input_rules ports = (accept_established ∷ []) ++ (map accept_from_port ports ++ (reject_all ∷ []))

pub add_all-append :
    (more rest rs : List Rule) → add_all (more ++ rest) rs ≡ add_all rest (add_all more rs)
add_all-append [] rest rs = refl
add_all-append (r ∷ more) rest rs = add_all-append more rest (add_unique r rs)

module _ (I : IpTables) (id : Text) where
  -- The action appends these rules to the forward chain, or to the input chain, and does no more.
  pub record AppendsTo (a : Action I.State) (rs : List Rule) : Type 0 where
    pub leads : (v : View) → Leads I id a v (record v { to = add_all rs v.to })

  pub record AppendsFrom (a : Action I.State) (rs : List Rule) : Type 0 where
    pub leads : (v : View) → Leads I id a v (record v { from = add_all rs v.from })

module _ (I : IpTables) (id : Text) {a b : Action I.State} {rs qs : List Rule} where
  to-seq : AppendsTo I id a rs → AppendsTo I id b qs → AppendsTo I id (a >> b) (rs ++ qs)
  to-seq p q = record {
    leads = λ v.
        rw (add_all-append rs qs v.to)
          (Leads-seq I id a b v _ _ (p.leads v) (q.leads (record v { to = add_all rs v.to })));
  }

  from-seq : AppendsFrom I id a rs → AppendsFrom I id b qs → AppendsFrom I id (a >> b) (rs ++ qs)
  from-seq p q = record {
    leads = λ v.
        rw (add_all-append rs qs v.from)
          (Leads-seq I id a b v _ _ (p.leads v) (q.leads (record v { from = add_all rs v.from })));
  }

  to-if :
      (egress : Bool)
      → AppendsTo I id a rs
      → AppendsTo I id b qs
      → AppendsTo I id (if egress then a else b) (if egress then rs else qs)
  to-if true p q = p
  to-if false p q = q

module _ (I : IpTables) (id : Text) where
  to-done : AppendsTo I id done []
  to-done = record { leads = λ v s h. (refl, h) }

  from-done : AppendsFrom I id done []
  from-done = record { leads = λ v s h. (refl, h) }

  to-each {ℓ} :
      {A : Type ℓ} (f : A → Action I.State) (g : A → List Rule)
      → ((x : A) → AppendsTo I id (f x) (g x))
      → (xs : List A) → AppendsTo I id (each f xs) (concat_map g xs)
  unfolding each
  to-each f g h [] = to-done
  to-each f g h (x ∷ xs) = to-seq I id (h x) (to-each f g h xs)

  from-each {ℓ} :
      {A : Type ℓ} (f : A → Action I.State) (g : A → Rule)
      → ((x : A) → AppendsFrom I id (f x) (g x ∷ []))
      → (xs : List A) → AppendsFrom I id (each f xs) (map g xs)
  unfolding each
  from-each f g h [] = from-done
  from-each f g h (x ∷ xs) = from-seq I id (h x) (from-each f g h xs)

module _ (I : IpTables) (L : IsLawful I) (R : IsReliable I) (id : Text) where
  to-try : (r : Rule) → AppendsTo I id (try_append I (forward_chain id) r) (r ∷ [])
  to-try r = record { leads = append-forward_chain I L R id r }

  from-try : (r : Rule) → AppendsFrom I id (try_append I (input_chain id) r) (r ∷ [])
  from-try r = record { leads = append-input_chain I L R id r }

  name_service-AppendsTo :
      (nameservers : List Text)
      → AppendsTo I id (allow_name_service I nameservers (forward_chain id)) (dns_rules nameservers)
  unfolding allow_name_service allow_dns
  name_service-AppendsTo nameservers =
      to-seq I id
        (to-each I id (allow_dns I (forward_chain id)) dns_to
          (λ server. to-seq I id (to-try _) (to-try _)) nameservers)
        (to-seq I id (to-try _) (to-try _))

  last-AppendsTo :
      (egress : Bool) (r q : Rule)
      → AppendsTo I id
          (if egress then try_append I (forward_chain id) r else try_append I (forward_chain id) q)
          ((if egress then r else q) ∷ [])
  last-AppendsTo true r q = to-try r
  last-AppendsTo false r q = to-try q

  pub fill_forward_chain-AppendsTo :
      (nameservers : List Text) (cidr : Text) (egress : Bool)
      → AppendsTo I id
          (fill_forward_chain I nameservers (forward_chain id) cidr egress)
          (forward_rules nameservers cidr egress)
  unfolding fill_forward_chain
  fill_forward_chain-AppendsTo nameservers cidr egress = to-seq I id (to-try _) (
      to-seq I id (to-if I id egress (name_service-AppendsTo nameservers) (to-done I id)) (
        to-seq I id (to-try _) (
          to-seq I id
            (to-each I id _ (λ c. reject_to c ∷ []) (λ c. to-try _) (cidr ∷ private_networks))
            (last-AppendsTo egress accept_all reject_all))))

  pub fill_input_chain-AppendsFrom :
      (ports : List PublishedPort)
      → AppendsFrom I id (fill_input_chain I (input_chain id) ports) (input_rules ports)
  unfolding fill_input_chain
  fill_input_chain-AppendsFrom ports =
      from-seq I id (from-try _)
        (from-seq I id (from-each I id _ accept_from_port (λ p. from-try _) ports) (from-try _))
