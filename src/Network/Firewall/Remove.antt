-- ===== src/Network/Firewall/Remove.antt =====
-- `DeleteSandboxRules` takes back what `ApplySandboxRules` installed.
use go_firecracker_container.Base.{
  ◌≡◌, ◌∙◌, ap, Bool, false, none, some, List, [], ◌∷◌, ◌++◌, nat_eq, list_eq, contains, arith, any,
}
use go_firecracker_container.Base.Text.{Text, text}
use go_firecracker_container.Network.Tables.{
  IpTables, IsLawful, IsReliable, filter, table_eq, Rule, add_unique, remove_first, IsUnused,
  leads_to,
}
use go_firecracker_container.Model.Actions.{Action, ignore, each, ◌>>◌}
use go_firecracker_container.Network.Firewall.{
  PublishedPort, forward, accept_to_port, forward_hook, input_hook, forward_chain, input_chain,
  from_source, from_bridge, apply_sandbox_rules, delete_sandbox_rules,
}
use go_firecracker_container.Network.Firewall.Jumps.{
  Quiet, Hushes, Calm, hush-each, hush-delete, hush-clear_forward, hush-clear_input, Calm-IsUnused,
  apply-Hushes, quiet-contains, forward_chain-named, input_chain-named, from_source-leads_to,
  from_bridge-leads_to,
}
use go_firecracker_container.Network.Firewall.View.{View, Shows}
use go_firecracker_container.Network.Firewall.Install.{
  IsNew, installed, apply_sandbox_rules_installs,
}
use go_firecracker_container.Network.Firewall.Unhook.{
  close_ports, unhook_forward, unhook_input, clear_forward, clear_input, drop_chains,
}

remove_first-append :
    (r : Rule) (rs : List Rule) → contains rs r ≡ false → remove_first r (rs ++ r ∷ []) ≡ rs
unfolding remove_first contains
remove_first-append r [] h = ground arith
remove_first-append r (q ∷ rs) h = ground (arith, remove_first-append r rs)

remove_first-add_unique :
    (r : Rule) (rs : List Rule) → contains rs r ≡ false → remove_first r (add_unique r rs) ≡ rs
unfolding add_unique
remove_first-add_unique r rs h = rw (h, add_unique) (remove_first-append r rs h)

module _ (I : IpTables) (L : IsLawful I) (R : IsReliable I) where
  after-IsNew :
      (id : Text) (a b : Action I.State) (s : I.State) (hook input : List Rule)
      → (a s).1 ≡ none
      → IsNew I id (b (a s).0).0 hook input
      → IsNew I id ((a >> b) s).0 hook input
  unfolding ◌>>◌
  after-IsNew id a b s hook input e n = rw (e, ◌>>◌) n

  -- The calls behind the loop over the ports.
  abbrev detach_chains : Text → Text → Text → Action I.State
  detach_chains id ip bridge = do
    ignore (λ s. I.delete s filter forward_hook (from_source ip (forward_chain id)))
    ignore (λ s. I.delete s filter input_hook (from_bridge bridge ip (input_chain id)))
    ignore (λ s. I.clear_chain s filter (forward_chain id))
    ignore (λ s. I.clear_chain s filter (input_chain id))
    ignore (λ s. I.delete_chain s filter (forward_chain id))
    ignore (λ s. I.delete_chain s filter (input_chain id))

  -- No rule outside of the sandbox's two chains has one of them as its target.
  abbrev IsCalm : Text → I.State → List Rule → List Rule → Type 0
  IsCalm id s hook input =
      Calm I L id (forward_chain id) s hook input × Calm I L id (input_chain id) s hook input

  abbrev emptied : Text → Text → Text → I.State → I.State
  emptied id ip bridge s =
      let unhooked =
        (I.delete (I.delete s filter forward_hook (from_source ip (forward_chain id))).0 filter
          input_hook (from_bridge bridge ip (input_chain id))).0 in
      (I.clear_chain (I.clear_chain unhooked filter (forward_chain id)).0 filter (input_chain id)).0

  detached-Quiet :
      (id ip bridge c : Text) (s : I.State)
      → Quiet I L id c s
      → Quiet I L id c (emptied id ip bridge s)
  detached-Quiet id ip bridge c s h = hush-clear_input I L id c _ (
      hush-clear_forward I L id c _
        (hush-delete I L id c input_hook _ _ (hush-delete I L id c forward_hook _ s h)))

  closed-Hushes :
      (id ip c : Text) (ports : List PublishedPort)
      → Hushes I L id c
          (each (λ p. ignore (λ s. I.delete s filter forward (accept_to_port ip p))) ports)
  closed-Hushes id ip c ports =
      hush-each I L id c _ (λ p. hush-delete I L id c forward (accept_to_port ip p)) ports

  detach_chains-IsNew :
      (id ip bridge : Text) (v : View) (s : I.State)
      → Shows I id s v
      → IsCalm id s
          (remove_first (from_source ip (forward_chain id)) v.hook)
          (remove_first (from_bridge bridge ip (input_chain id)) v.input)
      → IsNew I id
          (detach_chains id ip bridge s).0
          (remove_first (from_source ip (forward_chain id)) v.hook)
          (remove_first (from_bridge bridge ip (input_chain id)) v.input)
  unfolding ◌>>◌
  detach_chains-IsNew id ip bridge v s h calm =
      let unhooked = unhook_input I L R id _ _ _ (unhook_forward I L R id _ v s h).1 in
      let empty = (clear_input I L R id _ _ (clear_forward I L R id _ _ unhooked.1).1).1 in
      drop_chains I L R id _ _ _ empty
        (Calm-IsUnused I L id (forward_chain id) _ _ _
          (detached-Quiet id ip bridge (forward_chain id) s calm.0.0, calm.0.1, calm.0.2) empty)
        (Calm-IsUnused I L id (input_chain id) _ _ _
          (detached-Quiet id ip bridge (input_chain id) s calm.1.0, calm.1.1, calm.1.2) empty)

  -- With iptables reliable, `DeleteSandboxRules` removes the two chains of the sandbox, whatever
  -- they hold, and the jumps to them, if no other rule has one of them as its target.
  pub delete_sandbox_rules-IsNew :
      (id ip bridge : Text) (ports : List PublishedPort) (v : View) (s : I.State)
      → Shows I id s v
      → IsCalm id s
          (remove_first (from_source ip (forward_chain id)) v.hook)
          (remove_first (from_bridge bridge ip (input_chain id)) v.input)
      → IsNew I id
          (delete_sandbox_rules I id ip bridge ports s).0
          (remove_first (from_source ip (forward_chain id)) v.hook)
          (remove_first (from_bridge bridge ip (input_chain id)) v.input)
  unfolding delete_sandbox_rules
  delete_sandbox_rules-IsNew id ip bridge ports v s h calm =
      let closed = close_ports I L R id ip ports v s h in
      after-IsNew id _ (detach_chains id ip bridge) s _ _ closed.0 (
        detach_chains-IsNew id ip bridge v _ closed.1 (
          (closed-Hushes id ip (forward_chain id) ports s calm.0.0, calm.0.1, calm.0.2),
          (closed-Hushes id ip (input_chain id) ports s calm.1.0, calm.1.1, calm.1.2),
        ))

  -- A new sandbox whose chains no rule has as its target yet: installing its rules and removing them
  -- leaves no chain of it, and the hooks as they were. iptables is only taken to delete a chain that
  -- is empty and that no rule has as its target.
  pub delete-apply_sandbox_rules :
      (nameservers : List Text) (id ip cidr bridge : Text) (egress : Bool)
      (ports : List PublishedPort) (hook input : List Rule) (s : I.State)
      → IsNew I id s hook input
      → IsUnused I s filter (forward_chain id)
      → IsUnused I s filter (input_chain id)
      → let t = (apply_sandbox_rules I nameservers id ip cidr bridge egress ports s).0 in
        IsNew I id (delete_sandbox_rules I id ip bridge ports t).0 hook input
  delete-apply_sandbox_rules nameservers id ip cidr bridge egress ports hook input s n to_unused
        from_unused =
      let t = (apply_sandbox_rules I nameservers id ip cidr bridge egress ports s).0 in
      let shown =
        (apply_sandbox_rules_installs I L R nameservers id ip cidr bridge egress ports hook input s
          n).1 in
      let hook_same = remove_first-add_unique (from_source ip (forward_chain id)) hook (
        quiet-contains (forward_chain id) _ hook (from_source-leads_to ip (forward_chain id))
          (to_unused forward_hook hook n.hooked)) in
      let input_same = remove_first-add_unique (from_bridge bridge ip (input_chain id)) input (
        quiet-contains (input_chain id) _ input (from_bridge-leads_to bridge ip (input_chain id))
          (from_unused input_hook input n.guarded)) in
      let calm : (c : Text)
          → ((z : Text) × (c ≡ text "SBX-" ++ z))
          → IsUnused I s filter c
          → Calm I L id c t
              (remove_first (from_source ip (forward_chain id))
                (add_unique (from_source ip (forward_chain id)) hook))
              (remove_first (from_bridge bridge ip (input_chain id))
                (add_unique (from_bridge bridge ip (input_chain id)) input)) =
        λ c name unused. (
          apply-Hushes I L id c name.0 name.1 nameservers ip cidr bridge egress ports s
              (λ d rs apart e. unused d rs e),
          ap (any (leads_to c)) hook_same ∙ unused forward_hook hook n.hooked,
          ap (any (leads_to c)) input_same ∙ unused input_hook input n.guarded,
        ) in
      let removed =
        delete_sandbox_rules-IsNew id ip bridge ports
          (installed nameservers id ip cidr bridge egress ports hook input) _ shown
          (
            calm (forward_chain id) (forward_chain-named id) to_unused,
            calm (input_chain id) (input_chain-named id) from_unused,
          ) in
      record {
        hooked = removed.hooked ∙ ap some hook_same;
        guarded = removed.guarded ∙ ap some input_same;
        no_forward_chain = removed.no_forward_chain;
        no_input_chain = removed.no_input_chain;
      }
