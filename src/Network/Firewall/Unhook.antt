-- ===== src/Network/Firewall/Unhook.antt =====
-- What the calls of `DeleteSandboxRules` do to the hooks and to the chains of a sandbox, when
-- iptables is reliable.
use go_firecracker_container.Base.{
  ◌≡◌, refl, sym, ◌∙◌, ◌≢◌, false, none, some, List, [], ◌∷◌, nat_eq, list_eq, contains, arith,
}
use go_firecracker_container.Base.Text.{Text}
use go_firecracker_container.Network.Tables.{
  IpTables, IsLawful, IsReliable, filter, table_eq, Rule, remove_first, IsUnused,
}
use go_firecracker_container.Model.Actions.{ignore, each}
use go_firecracker_container.Network.Firewall.{
  PublishedPort, forward, forward_hook, input_hook, forward_chain, input_chain, accept_to_port,
}
use go_firecracker_container.Network.Firewall.Names.{
  forward_chain-ne-input_chain, forward_chain-ne-forward_hook, forward_chain-ne-input_hook,
  forward_chain-ne-forward, input_chain-ne-forward_hook, input_chain-ne-input_hook,
  input_chain-ne-forward, forward_hook-ne-input_hook, forward_hook-ne-forward,
  input_hook-ne-forward,
}
use go_firecracker_container.Network.Firewall.Jumps.{delete_chain-IsUnused}
use go_firecracker_container.Network.Firewall.View.{View, Shows, Leads, Leads-seq}
use go_firecracker_container.Network.Firewall.Install.{IsNew}
use go_firecracker_container.Network.Firewall.Frame.{
  keep-delete, keep-clear_chain, keep-delete_chain, apart_of_ne,
}

pub remove_first_absent :
    (r : Rule) (rs : List Rule) → contains rs r ≡ false → remove_first r rs ≡ rs
unfolding remove_first contains
remove_first_absent r [] h = refl
remove_first_absent r (q ∷ rs) h = ground (arith, remove_first_absent r rs)

module _ (I : IpTables) (L : IsLawful I) (R : IsReliable I) where
  -- A rule that is not there is not missed.
  pub delete_here :
      (s : I.State) (c : Text) (r : Rule) (rs : List Rule)
      → I.rules s filter c ≡ some rs
      → I.rules (I.delete s filter c r).0 filter c ≡ some (remove_first r rs)
  delete_here s c r rs h = ground (
    arith,
    L.rules-delete s filter filter c c r,
    R.delete_accepted s filter c r rs h,
    remove_first_absent r rs,
  )

  clear_here :
      (s : I.State) (c : Text) (rs : List Rule)
      → I.rules s filter c ≡ some rs
      → I.rules (I.clear_chain s filter c).0 filter c ≡ some []
  clear_here s c rs h =
      ground (arith, L.rules-clear_chain s filter filter c c, R.clear_chain_accepted s filter c)

  drop_here :
      (s : I.State) (c : Text)
      → I.rules s filter c ≡ some []
      → IsUnused I s filter c
      → I.rules (I.delete_chain s filter c).0 filter c ≡ none
  drop_here s c h unused =
      ground (
        arith,
        L.rules-delete_chain s filter filter c c,
        R.delete_chain_accepted s filter c h unused,
      )

  module _ (id : Text) where
    -- An action on the chain `d` that leaves the other chains of the view alone.
    unhook :
        (d : Text) (r : Rule) (c : Text) (s : I.State)
        → d ≢ c
        → I.rules (I.delete s filter d r).0 filter c ≡ I.rules s filter c
    unhook d r c s ne = (keep-delete I L filter c (apart_of_ne d c ne) r).same s

    close_port : (r : Rule) (v : View) → Leads I id (ignore (λ s. I.delete s filter forward r)) v v
    close_port r v s h = (
      refl,
      record {
        hook = unhook _ r _ s (λ e. forward_hook-ne-forward (sym e)) ∙ h.hook;
        input = unhook _ r _ s (λ e. input_hook-ne-forward (sym e)) ∙ h.input;
        to = unhook _ r _ s (λ e. forward_chain-ne-forward id (sym e)) ∙ h.to;
        from = unhook _ r _ s (λ e. input_chain-ne-forward id (sym e)) ∙ h.from;
      },
    )

    pub close_ports :
        (ip : Text) (ports : List PublishedPort) (v : View)
        → Leads I id
            (each (λ p. ignore (λ s. I.delete s filter forward (accept_to_port ip p))) ports)
            v
            v
    unfolding each
    close_ports ip [] v = λ s h. (refl, h)
    close_ports ip (p ∷ ports) v =
        Leads-seq I id _ _ v v v (close_port (accept_to_port ip p) v) (close_ports ip ports v)

    pub unhook_forward :
        (r : Rule) (v : View)
        → Leads I id
            (ignore (λ s. I.delete s filter forward_hook r))
            v
            (record v { hook = remove_first r v.hook })
    unhook_forward r v s h = (
      refl,
      record {
        hook = delete_here s forward_hook r v.hook h.hook;
        input = unhook _ r _ s forward_hook-ne-input_hook ∙ h.input;
        to = unhook _ r _ s (λ e. forward_chain-ne-forward_hook id (sym e)) ∙ h.to;
        from = unhook _ r _ s (λ e. input_chain-ne-forward_hook id (sym e)) ∙ h.from;
      },
    )

    pub unhook_input :
        (r : Rule) (v : View)
        → Leads I id
            (ignore (λ s. I.delete s filter input_hook r))
            v
            (record v { input = remove_first r v.input })
    unhook_input r v s h = (
      refl,
      record {
        hook = unhook _ r _ s (λ e. forward_hook-ne-input_hook (sym e)) ∙ h.hook;
        input = delete_here s input_hook r v.input h.input;
        to = unhook _ r _ s (λ e. forward_chain-ne-input_hook id (sym e)) ∙ h.to;
        from = unhook _ r _ s (λ e. input_chain-ne-input_hook id (sym e)) ∙ h.from;
      },
    )

    cleared :
        (d c : Text) (s : I.State)
        → d ≢ c
        → I.rules (I.clear_chain s filter d).0 filter c ≡ I.rules s filter c
    cleared d c s ne = (keep-clear_chain I L filter c (apart_of_ne d c ne)).same s

    dropped :
        (d c : Text) (s : I.State)
        → d ≢ c
        → I.rules (I.delete_chain s filter d).0 filter c ≡ I.rules s filter c
    dropped d c s ne = (keep-delete_chain I L filter c (apart_of_ne d c ne)).same s

    pub clear_forward :
        (v : View)
        → Leads I id
            (ignore (λ s. I.clear_chain s filter (forward_chain id)))
            v
            (record v { to = [] })
    clear_forward v s h = (
      refl,
      record {
        hook = cleared _ _ s (forward_chain-ne-forward_hook id) ∙ h.hook;
        input = cleared _ _ s (forward_chain-ne-input_hook id) ∙ h.input;
        to = clear_here s _ v.to h.to;
        from = cleared _ _ s (forward_chain-ne-input_chain id id) ∙ h.from;
      },
    )

    pub clear_input :
        (v : View)
        → Leads I id
            (ignore (λ s. I.clear_chain s filter (input_chain id)))
            v
            (record v { from = [] })
    clear_input v s h = (
      refl,
      record {
        hook = cleared _ _ s (input_chain-ne-forward_hook id) ∙ h.hook;
        input = cleared _ _ s (input_chain-ne-input_hook id) ∙ h.input;
        to = cleared _ _ s (λ e. forward_chain-ne-input_chain id id (sym e)) ∙ h.to;
        from = clear_here s _ v.from h.from;
      },
    )

    pub drop_chains :
        (hook input : List Rule) (s : I.State)
        → Shows I id s (record { hook = hook; input = input; to = []; from = [] })
        → IsUnused I s filter (forward_chain id)
        → IsUnused I s filter (input_chain id)
        → IsNew I id
            (I.delete_chain
              (I.delete_chain s filter (forward_chain id)).0
              filter
              (input_chain id)).0
            hook
            input
    drop_chains hook input s h to_unused from_unused =
        let t = (I.delete_chain s filter (forward_chain id)).0 in
        record {
          hooked =
              dropped _ _ t (input_chain-ne-forward_hook id)
              ∙ (dropped _ _ s (forward_chain-ne-forward_hook id) ∙ h.hook);
          guarded =
              dropped _ _ t (input_chain-ne-input_hook id)
              ∙ (dropped _ _ s (forward_chain-ne-input_hook id) ∙ h.input);
          no_forward_chain =
              dropped _ _ t (λ e. forward_chain-ne-input_chain id id (sym e))
              ∙ drop_here s _ h.to to_unused;
          no_input_chain =
              drop_here t _ (dropped _ _ s (forward_chain-ne-input_chain id id) ∙ h.from)
                (delete_chain-IsUnused I L id (input_chain id) s (forward_chain id) from_unused);
        }
