-- ===== src/Network/Firewall/Install.antt =====
-- `ApplySandboxRules` for a sandbox whose chains do not exist yet.
use go_firecracker_container.Base.{◌≡◌, refl, sym, ◌∙◌, ◌≢◌, Bool, none, some, List, [], ◌∷◌, arith}
use go_firecracker_container.Base.Text.{Text}
use go_firecracker_container.Network.Tables.{
  IpTables, IsLawful, IsReliable, filter, Rule, add_unique,
}
use go_firecracker_container.Model.Actions.{ignore, ◌>>◌, each}
use go_firecracker_container.Network.Firewall.{
  PublishedPort, forward_hook, input_hook, forward_chain, input_chain, from_source, from_bridge,
  attach_chains, apply_sandbox_rules, insert_forward_accept_early,
}
use go_firecracker_container.Network.Firewall.Names.{
  forward_chain-ne-input_chain, forward_chain-ne-forward_hook, forward_chain-ne-input_hook,
  input_chain-ne-forward_hook, input_chain-ne-input_hook,
}
use go_firecracker_container.Network.Firewall.View.{
  add_all, View, Shows, Leads, Leads-seq, after-Shows, append-forward_hook, append-input_hook,
  insert-forward,
}
use go_firecracker_container.Network.Firewall.Chains.{
  forward_rules, input_rules, fill_forward_chain-AppendsTo, fill_input_chain-AppendsFrom,
}

-- The hooks are installed, and the sandbox has no chains.
pub record IsNew (I : IpTables) (id : Text) (s : I.State) (hook input : List Rule) : Type 0 where
  pub hooked : I.rules s filter forward_hook ≡ some hook
  pub guarded : I.rules s filter input_hook ≡ some input
  pub no_forward_chain : I.rules s filter (forward_chain id) ≡ none
  pub no_input_chain : I.rules s filter (input_chain id) ≡ none

-- What a sandbox's rules are, once they are installed.
abbrev pub installed :
    List Text → Text → Text → Text → Text → Bool → List PublishedPort → List Rule → List Rule → View
installed nameservers id ip cidr bridge egress ports hook input = record {
  hook = add_unique (from_source ip (forward_chain id)) hook;
  input = add_unique (from_bridge bridge ip (input_chain id)) input;
  to = add_all (forward_rules nameservers cidr egress) [];
  from = add_all (input_rules ports) [];
}

module _ (I : IpTables) (L : IsLawful I) (R : IsReliable I) where
  new_chain_other :
      (s : I.State) (c d : Text)
      → c ≢ d
      → I.rules (I.new_chain s filter c).0 filter d ≡ I.rules s filter d
  new_chain_other s c d ne = rw (L.rules-new_chain s filter filter c d) (ground arith)

  new_chain_here :
      (s : I.State) (c : Text)
      → I.rules s filter c ≡ none
      → I.rules (I.new_chain s filter c).0 filter c ≡ some []
  new_chain_here s c h =
      ground (arith, L.rules-new_chain s filter filter c c, R.new_chain_accepted s filter c h)

  create_chains :
      (id : Text) (s : I.State) (hook input : List Rule)
      → IsNew I id s hook input
      → Shows I id
          (I.new_chain (I.new_chain s filter (forward_chain id)).0 filter (input_chain id)).0
          (record { hook = hook; input = input; to = []; from = [] })
  create_chains id s hook input n =
      let t = (I.new_chain s filter (forward_chain id)).0 in
      record {
        hook =
            new_chain_other t _ _ (input_chain-ne-forward_hook id)
            ∙ (new_chain_other s _ _ (forward_chain-ne-forward_hook id) ∙ n.hooked);
        input =
            new_chain_other t _ _ (input_chain-ne-input_hook id)
            ∙ (new_chain_other s _ _ (forward_chain-ne-input_hook id) ∙ n.guarded);
        to =
            new_chain_other t _ _ (λ e. forward_chain-ne-input_chain id id (sym e))
            ∙ new_chain_here s _ n.no_forward_chain;
        from =
            new_chain_here t _
              (new_chain_other s _ _ (forward_chain-ne-input_chain id id) ∙ n.no_input_chain);
      }

  open_ports-Leads :
      (id ip : Text) (ports : List PublishedPort) (v : View)
      → Leads I id (each (λ p. ignore (insert_forward_accept_early I ip p)) ports) v v
  unfolding each
  open_ports-Leads id ip [] v = λ s h. (refl, h)
  open_ports-Leads id ip (p ∷ ports) v =
      Leads-seq I id _ _ v v v (insert-forward I L R id ip p v) (open_ports-Leads id ip ports v)

  attach_chains_installs :
      (id ip bridge : Text) (s : I.State) (hook input : List Rule)
      → IsNew I id s hook input
      → let r = attach_chains I id ip bridge s in
        (r.1 ≡ none)
        × Shows I id r.0 (record {
          hook = add_unique (from_source ip (forward_chain id)) hook;
          input = add_unique (from_bridge bridge ip (input_chain id)) input;
          to = [];
          from = [];
        })
  unfolding attach_chains ◌>>◌
  attach_chains_installs id ip bridge s hook input n =
      Leads-seq I id _ _ _ _ _ (append-forward_hook I L R id _ _) (append-input_hook I L R id _ _) _
        (create_chains id s hook input n)

  -- For a new sandbox, with the hooks in place and iptables reliable: `ApplySandboxRules` returns
  -- nil, the hooks end with a jump to the sandbox's chains, and the chains hold `forward_rules` and
  -- `input_rules` in order, each rule once.
  pub apply_sandbox_rules_installs :
      (nameservers : List Text) (id ip cidr bridge : Text) (egress : Bool)
      (ports : List PublishedPort) (hook input : List Rule) (s : I.State)
      → IsNew I id s hook input
      → let r = apply_sandbox_rules I nameservers id ip cidr bridge egress ports s in
        (r.1 ≡ none)
        × Shows I id r.0 (installed nameservers id ip cidr bridge egress ports hook input)
  unfolding apply_sandbox_rules
  apply_sandbox_rules_installs nameservers id ip cidr bridge egress ports hook input s n =
      after-Shows I id _ _ s _ _ (attach_chains_installs id ip bridge s hook input n) (
        Leads-seq I id _ _ _ _ _ (open_ports-Leads id ip ports _) (
          Leads-seq I id _ _ _ _ _
            ((fill_forward_chain-AppendsTo I L R id nameservers cidr egress).leads _)
            ((fill_input_chain-AppendsFrom I L R id ports).leads _)))
